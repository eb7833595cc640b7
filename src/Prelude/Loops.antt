-- ===== src/Prelude/Loops.antt =====
-- Loops that may fail: what two loops over one list have in common.
use mathlib.Core.Path.{◌≡◌, refl}
use mathlib.Core.List.{List, [], ◌∷◌, ◌++◌, map}
use mathlib.Core.Logic.{inl, inr}
use mathlib.Core.Option.{some}
use Prim.Native.Nat.{ℕ, zero, suc, ◌+◌, ◌<◌}
use native.Mathlib.Omega.{arith}
use p2p_btc_lending.Prelude.Lists.{get_elem?, length, All}
use p2p_btc_lending.Prelude.Fallible.{Result, ok, for_each, >>=-eq-ok, >>=-ok, Result-cases}

-- What holds of the state of a loop that returned held of the states before.
module _ {ℓ} {E A S : Type ℓ} {f : A → S → Result E S} (P : S → Type ℓ)
    (back : (x : A) (s s' : S) → f x s ≡ ok s' → P s' → P s) where
  pub for_each-back : (xs : List A) (s s' : S) → for_each f xs s ≡ ok s' → P s' → P s
  unfolding for_each
  for_each-back [] s s' e p = let same : s ≡ s' = cc in rw same p
  for_each-back (x ∷ xs) s s' e p =
      let (s1, first, rest) = >>=-eq-ok (f x s) (for_each f xs) e in
      back x s s1 first (for_each-back xs s1 s' rest p)

-- What each step keeps.
module _ {ℓ} {E A S : Type ℓ} {f : A → S → Result E S} (P : S → Type ℓ)
    (keeps : (x : A) (s s' : S) → P s → f x s ≡ ok s' → P s') where
  pub for_each-keeps : (xs : List A) (s s' : S) → P s → for_each f xs s ≡ ok s' → P s'
  unfolding for_each
  for_each-keeps [] s s' p e = let same : s ≡ s' = cc in rw same at p
  for_each-keeps (x ∷ xs) s s' p e =
      let (s1, first, rest) = >>=-eq-ok (f x s) (for_each f xs) e in
      for_each-keeps xs s1 s' (keeps x s s1 p first) rest

-- A loop `f` that returns `Ok` is followed by a loop `g` when each step of `f` is followed by one of
-- `g`; `Q` holds of the items, `R` relates the states, and `P` holds of the last state of `f`.
module _ {ℓ} {E A S T : Type ℓ} {f : A → S → Result E S} {g : A → T → Result E T} (Q : A → Type ℓ)
    (R : S → T → Type ℓ) (P : S → Type ℓ) (back : (x : A) (s s' : S) → f x s ≡ ok s' → P s' → P s)
    (step : (x : A) (s s' : S) (t : T)
      → Q x
      → R s t
      → P s'
      → f x s ≡ ok s'
      → (t' : T) × (g x t ≡ ok t') × R s' t') where
  pub for_each-follows :
      (xs : List A) (s s' : S) (t : T)
      → All Q xs
      → R s t
      → P s'
      → for_each f xs s ≡ ok s'
      → (t' : T) × (for_each g xs t ≡ ok t') × R s' t'
  unfolding for_each
  for_each-follows [] s s' t q r p e = let same : s ≡ s' = cc in (t, refl, rw same at r)
  for_each-follows (x ∷ xs) s s' t (q, qs) r p e =
      let (s1, first, rest) = >>=-eq-ok (f x s) (for_each f xs) e in
      let (t1, first', r1) = step x s s1 t q r (for_each-back P back xs s1 s' rest p) first in
      let (t', rest', r') = for_each-follows xs s1 s' t1 qs r1 p rest in (t', rw first' rest', r')

pub All-trivial {ℓ κ} : {A : Type ℓ} (xs : List A) → All (λ _. Unit {κ}) xs
All-trivial [] = tt
All-trivial (x ∷ xs) = (tt, All-trivial xs)

pub for_each-map {ℓ} :
    {E A B S : Type ℓ} (g : B → S → Result E S) (h : A → B) (xs : List A) (s : S)
    → for_each g (map h xs) s ≡ for_each (λ x s. g (h x) s) xs s
unfolding for_each
for_each-map g h [] s = refl
for_each-map g h (x ∷ xs) s = elim (Result-cases (g (h x) s)) [
  | inl (s', e) ↦ rw e (for_each-map g h xs s')
  | inr (inl (e', e)) ↦ rw e refl
  | inr (inr e) ↦ rw e refl
]

-- The last step of a loop.
pub for_each-snoc {ℓ} :
    {E A S : Type ℓ} (f : A → S → Result E S) (xs : List A) (x : A) (s s1 s2 : S)
    → for_each f xs s ≡ ok s1
    → f x s1 ≡ ok s2
    → for_each f (xs ++ x ∷ []) s ≡ ok s2
unfolding for_each
for_each-snoc f [] x s s1 s2 e h =
    let same : s ≡ s1 = cc in let called : f x s ≡ ok s2 = rw same h in >>=-ok _ called refl
for_each-snoc f (y ∷ xs) x s s1 s2 e h =
    let (s', first, rest) = >>=-eq-ok (f y s) (for_each f xs) e in
    >>=-ok _ first (for_each-snoc f xs x s' s1 s2 rest h)

pub zero_add : (n : ℕ) → 0 + n ≡ n
zero_add n = omega arith

suc_add : (m n : ℕ) → suc m + n ≡ suc (m + n)
suc_add m n = omega arith

module _ {ℓ} {A : Type ℓ} where
  pub get_elem?-append :
      (xs ys : List A) (i : ℕ) (x : A) → get_elem? xs i ≡ some x → get_elem? (xs ++ ys) i ≡ some x
  get_elem?-append [] ys i x e = cc
  get_elem?-append (y ∷ xs) ys zero x e = e
  get_elem?-append (y ∷ xs) ys (suc i) x e = get_elem?-append xs ys i x e

  pub get_elem?-append_last :
      (xs ys : List A) (y : A) → get_elem? (xs ++ y ∷ ys) (length xs) ≡ some y
  get_elem?-append_last [] ys y = refl
  get_elem?-append_last (x ∷ xs) ys y = get_elem?-append_last xs ys y

  pub length-snoc : (xs : List A) (x : A) → length (xs ++ x ∷ []) ≡ length xs + 1
  length-snoc [] x = refl
  length-snoc (y ∷ xs) x = omega (arith, length-snoc xs x)

  pub get_elem?-append_at :
      (xs ys : List A) (i : ℕ) → get_elem? (xs ++ ys) (length xs + i) ≡ get_elem? ys i
  get_elem?-append_at [] ys i = rw (zero_add i) refl
  get_elem?-append_at (x ∷ xs) ys i = rw (suc_add (length xs) i) (get_elem?-append_at xs ys i)

  pub length-append : (xs ys : List A) → length (xs ++ ys) ≡ length xs + length ys
  length-append [] ys = omega arith
  length-append (x ∷ xs) ys = omega (arith, length-append xs ys)

  -- An index below the length has an item.
  pub get_elem?-below : (xs : List A) (i : ℕ) → i < length xs → (x : A) × (get_elem? xs i ≡ some x)
  get_elem?-below [] i h = absurd (omega arith)
  get_elem?-below (x ∷ xs) zero h = (x, refl)
  get_elem?-below (x ∷ xs) (suc i) h = get_elem?-below xs i (omega arith)

  pub below-get_elem? : (xs : List A) (i : ℕ) (x : A) → get_elem? xs i ≡ some x → i < length xs
  below-get_elem? [] i x e = cc
  below-get_elem? (y ∷ xs) zero x e = omega arith
  below-get_elem? (y ∷ xs) (suc i) x e = omega (arith, below-get_elem? xs i x e)

  pub All-append {κ} : (P : A → Type κ) (xs ys : List A) → All P xs → All P ys → All P (xs ++ ys)
  All-append P [] ys h h' = h'
  All-append P (x ∷ xs) ys (p, h) h' = (p, All-append P xs ys h h')

  pub All-get_elem? {κ} :
      (P : A → Type κ) (xs : List A) (i : ℕ) (x : A) → All P xs → get_elem? xs i ≡ some x → P x
  All-get_elem? P [] i x h e = cc
  All-get_elem? P (y ∷ xs) zero x (p, h) e = let same : y ≡ x = cc in rw same at p
  All-get_elem? P (y ∷ xs) (suc i) x (p, h) e = All-get_elem? P xs i x h e
