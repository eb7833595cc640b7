-- ===== src/Prelude/Fallible.antt =====
-- What a Rust function that returns `Result<A, E>` does: it returns `Ok`, it returns `Err`, or it
-- panics (an `unwrap`, an `assert_eq!`, an overflow of an `Amount`).
use mathlib.Core.Path.{◌≡◌, refl, ap, sym, ◌∙◌}
use mathlib.Core.Option.{Option, none, some}
use mathlib.Core.Logic.{◌⊎◌, inl, inr}
use mathlib.Core.Bool.{Bool, true, false}
use mathlib.Core.List.{List, [], ◌∷◌}
use Prim.Native.Nat.{ℕ}
use p2p_btc_lending.Prelude.Lists.{get_elem?}

pub data Result {ℓ κ} (E : Type ℓ) (A : Type κ) : Type (ℓ ⊔ κ) where
  ok : A → Result E A
  err : E → Result E A
  panic : Result E A

infixl 5 ◌>>=◌ ◌>>◌
abbrev pub ◌>>=◌ {ℓ κ μ} :
    {E : Type ℓ} {A : Type κ} {B : Type μ} → Result E A → (A → Result E B) → Result E B
panic >>= next = panic
err e >>= next = err e
ok value >>= next = next value

abbrev pub ◌>>◌ {ℓ κ} : {E : Type ℓ} {B : Type κ} → Result E (Unit {0}) → Result E B → Result E B
call >> rest = call >>= λ _. rest

-- `assert!(c)`
abbrev pub assert {ℓ} : {E : Type ℓ} → Bool → Result E (Unit {0})
assert true = ok tt
assert false = panic

-- `return Err(e)` unless `c`
abbrev pub ensure {ℓ} : {E : Type ℓ} → Bool → E → Result E (Unit {0})
ensure true e = ok tt
ensure false e = err e

-- `expect` and `unwrap`
abbrev pub unwrap {ℓ κ} : {E : Type ℓ} {A : Type κ} → Option A → Result E A
unwrap (some a) = ok a
unwrap none = panic

-- `map_err`
abbrev pub map_err {ℓ κ μ} :
    {E : Type ℓ} {F : Type κ} {A : Type μ} → (E → F) → Result E A → Result F A
map_err f (ok a) = ok a
map_err f (err e) = err (f e)
map_err f panic = panic

-- What holds of the value of a call that returns `Ok`.
abbrev pub OnOk {ℓ κ μ} : {E : Type ℓ} {A : Type κ} → (A → Type μ) → Result E A → Type μ
OnOk P (ok a) = P a
OnOk P (err e) = Unit
OnOk P panic = Unit

pub OnOk-ok {ℓ κ μ} :
    {E : Type ℓ} {A : Type κ} (P : A → Type μ) (m : Result E A) {a : A} → OnOk P m → m ≡ ok a → P a
OnOk-ok P m h e = rw e at h

-- What holds after two calls.
pub OnOk-then {ℓ κ μ ν} :
    {E : Type ℓ} {A : Type κ} {B : Type κ} (P : A → Type μ) (Q : B → Type ν) (m : Result E A)
    (f : A → Result E B)
    → OnOk P m
    → ((a : A) → P a → OnOk Q (f a))
    → OnOk Q (m >>= f)
OnOk-then P Q (ok a) f p h = h a p
OnOk-then P Q (err e) f p h = tt
OnOk-then P Q panic f p h = tt

pub >>=-eq-ok {ℓ κ μ} :
    {E : Type ℓ} {A : Type κ} {B : Type μ} (call : Result E A) (next : A → Result E B) {b : B}
    → (call >>= next) ≡ ok b
    → (value : A) × (call ≡ ok value) × (next value ≡ ok b)
>>=-eq-ok panic next passed = cc
>>=-eq-ok (err e) next passed = cc
>>=-eq-ok (ok value) next passed = (value, refl, passed)

pub ensure-ok {ℓ} : {E : Type ℓ} (c : Bool) (e : E) {u : Unit {0}} → ensure c e ≡ ok u → c ≡ true
ensure-ok true e h = refl
ensure-ok false e h = cc

pub assert-ok {ℓ} : {E : Type ℓ} (c : Bool) {u : Unit {0}} → assert {E = E} c ≡ ok u → c ≡ true
assert-ok true h = refl
assert-ok false h = cc

-- A call returns `Ok`, `Err` or panics.
pub Result-cases {ℓ κ} :
    {E : Type ℓ} {A : Type κ} (m : Result E A)
    → ((a : A) × (m ≡ ok a)) ⊎ (((e : E) × (m ≡ err e)) ⊎ (m ≡ panic))
Result-cases (ok a) = inl (a, refl)
Result-cases (err e) = inr (inl (e, refl))
Result-cases panic = inr (inr refl)

-- `for x in xs { .. ?; }`, with the variables that the body changes.
unfoldable pub for_each {ℓ κ μ} :
    {E : Type ℓ} {A : Type κ} {S : Type μ} → (A → S → Result E S) → List A → S → Result E S
for_each f [] s = ok s
for_each f (x ∷ xs) s = f x s >>= for_each f xs

-- `iter().map(f).collect::<Result<Vec<_>, _>>()`
unfoldable pub collect {ℓ κ μ} :
    {E : Type ℓ} {A : Type κ} {B : Type μ} → (A → Result E B) → List A → Result E (List B)
collect f [] = ok []
collect f (x ∷ xs) = do y ← f x; ys ← collect f xs; ok (y ∷ ys)

-- `xs[i]`
abbrev pub at_index {ℓ κ} : {E : Type ℓ} {A : Type κ} → List A → ℕ → Result E A
at_index xs i = unwrap (get_elem? xs i)

-- A call that returned goes on.
pub >>=-ok {ℓ κ μ} :
    {E : Type ℓ} {A : Type κ} {B : Type μ} {call : Result E A} (next : A → Result E B) {a : A}
    {r : Result E B}
    → call ≡ ok a
    → next a ≡ r
    → (call >>= next) ≡ r
>>=-ok next e h = rw e h

pub map_err-eq-ok {ℓ κ μ} :
    {E : Type ℓ} {F : Type κ} {A : Type μ} (f : E → F) (m : Result E A) {a : A}
    → map_err f m ≡ ok a
    → m ≡ ok a
map_err-eq-ok f (ok a) h = let same : a ≡ _ = cc in ap ok same
map_err-eq-ok f (err e) h = cc
map_err-eq-ok f panic h = cc

pub unwrap-eq-ok {ℓ κ} :
    {E : Type ℓ} {A : Type κ} (o : Option A) {a : A} → unwrap {E = E} o ≡ ok a → o ≡ some a
unwrap-eq-ok none h = cc
unwrap-eq-ok (some a) h = let same : a ≡ _ = cc in ap some same

abbrev value_or {ℓ κ} : {E : Type ℓ} {A : Type κ} → A → Result E A → A
value_or d (ok a) = a
value_or d (err e) = d
value_or d panic = d

-- A call returns one value.
pub ok-inj {ℓ κ} :
    {E : Type ℓ} {A : Type κ} (call : Result E A) {a b : A} → call ≡ ok a → call ≡ ok b → a ≡ b
ok-inj call {a} p q = sym (ap (value_or a) p) ∙ ap (value_or a) q
