-- ===== src/Wire.antt =====
-- Reading and writing bytes: stable-borrow-cli/crates/dlc-messages/src/ser_impls.rs and ser_macros.rs,
-- with what they call of the crate lightning for integers and byte arrays.
--
-- A Wire has a type's `Writeable` and `Readable`: what is read of the bytes that were written, whatever
-- follows them, is the value and what follows.
pub mod Numbers
pub mod Vectors
pub mod Messages
pub mod Contracts
pub mod Tests
use p2p_btc_lending.Prelude.{
  ℕ, zero, suc, ◌≡◌, refl, ap, ◌∙◌, List, [], ◌∷◌, ◌++◌, Option, none, some, length,
}
use mathlib.Core.List.{append_assoc}
use p2p_btc_lending.Dlc.Types.{Bytes}

pub record Wire (A : Type 0) : Type 1 where
  pub Fits : A → Type 0
  pub write : A → Bytes
  pub read : Bytes → Option (A × Bytes)
  pub read-write : (a : A) (rest : Bytes) → Fits a → read (write a ++ rest) ≡ some (a, rest)

-- `?` on what was read, with the rest of the bytes.
abbrev pub then_read {ℓ κ} :
    {A : Type ℓ} {B : Type κ} → Option (A × Bytes) → (A → Bytes → Option B) → Option B
then_read none f = none
then_read (some (a, rest)) f = f a rest

pub then_read-some {ℓ κ} :
    {A : Type ℓ} {B : Type κ} {r : Option (A × Bytes)} {a : A} {rest : Bytes}
    (f : A → Bytes → Option B) {b : Option B}
    → r ≡ some (a, rest)
    → f a rest ≡ b
    → then_read r f ≡ b
then_read-some f e h = rw e h

-- Two fields, one after the other.
infixr 5 ◌⊗◌
abbrev pub ◌⊗◌ : {A B : Type 0} → Wire A → Wire B → Wire (A × B)
v ⊗ w = record {
  Fits = λ p. v.Fits p.0 × w.Fits p.1;
  write = λ p. v.write p.0 ++ w.write p.1;
  read = λ bs. then_read (v.read bs) (λ a r. then_read (w.read r) (λ b r'. some ((a, b), r')));
  read-write = λ p rest h.
      ap (λ bs. then_read (v.read bs) (λ a r. then_read (w.read r) (λ b r'. some ((a, b), r'))))
        (append_assoc (v.write p.0) (w.write p.1) rest)
      ∙ then_read-some _ (v.read-write p.0 (w.write p.1 ++ rest) h.0)
          (then_read-some _ (w.read-write p.1 rest h.1) refl);
}

-- A struct that has the given fields.
abbrev pub struct_wire :
    {A B : Type 0} (w : Wire B) (fields : A → B) (build : B → A)
    → ((a : A) → build (fields a) ≡ a)
    → Wire A
struct_wire w fields build same = record {
  Fits = λ a. w.Fits (fields a);
  write = λ a. w.write (fields a);
  read = λ bs. then_read (w.read bs) (λ b rest. some (build b, rest));
  read-write = λ a rest h.
      then_read-some _ (w.read-write (fields a) rest h) (ap (λ x. some (x, rest)) (same a));
}

-- `[u8; n]`
unfoldable pub read_fixed : ℕ → Bytes → Option (Bytes × Bytes)
read_fixed zero bs = some ([], bs)
read_fixed (suc k) [] = none
read_fixed (suc k) (x ∷ xs) = then_read (read_fixed k xs) (λ ys rest. some (x ∷ ys, rest))

pub read_fixed-append : (xs rest : Bytes) → read_fixed (length xs) (xs ++ rest) ≡ some (xs, rest)
unfolding read_fixed
read_fixed-append [] rest = refl
read_fixed-append (x ∷ xs) rest = then_read-some _ (read_fixed-append xs rest) refl

abbrev pub fixed_wire : ℕ → Wire Bytes
fixed_wire k = record {
  Fits = λ xs. length xs ≡ k;
  write = λ xs. xs;
  read = λ bs. read_fixed k bs;
  read-write = λ xs rest h. rw h at (read_fixed-append xs rest);
}
