-- ===== src/Wire/Vectors.antt =====
-- Vectors with their length in front, strings, and values with a type and a length in front.
use p2p_btc_lending.Prelude.{
  ℕ, zero, suc, ◌<◌, ◌≤◌, ◌≡◌, refl, ap, ◌∙◌, List, [], ◌∷◌, ◌++◌, Option, none, some, length, Bool,
  true, false, ltb, ◌==◌, if◌then◌else◌, All, arith,
}
use mathlib.Core.List.{append_assoc}
use p2p_btc_lending.Dlc.Types.{Bytes}
use p2p_btc_lending.Wire.{Wire, then_read, then_read-some}
use p2p_btc_lending.Wire.Numbers.{uint_wire, big_size_wire}

module _ {A : Type 0} (w : Wire A) where
  unfoldable pub write_all : List A → Bytes
  write_all [] = []
  write_all (x ∷ xs) = w.write x ++ write_all xs

  -- `for _ in 0..len { res.push(cb(reader)?) }`
  unfoldable pub read_many : ℕ → Bytes → Option (List A × Bytes)
  read_many zero bs = some ([], bs)
  read_many (suc n) bs =
      then_read (w.read bs) (λ x r. then_read (read_many n r) (λ xs r'. some (x ∷ xs, r')))

  pub read_many-write_all :
      (xs : List A) (rest : Bytes)
      → All w.Fits xs
      → read_many (length xs) (write_all xs ++ rest) ≡ some (xs, rest)
  unfolding read_many write_all
  read_many-write_all [] rest h = refl
  read_many-write_all (x ∷ xs) rest (h, hs) =
      ap (λ bs. read_many (length (x ∷ xs)) bs) (append_assoc (w.write x) (write_all xs) rest)
      ∙ then_read-some _ (w.read-write x (write_all xs ++ rest) h)
          (then_read-some _ (read_many-write_all xs rest hs) refl)

  -- A length by `c`, which `read` refuses above a bound, and the values.
  abbrev read_counted : Wire ℕ → ℕ → Bytes → Option (List A × Bytes)
  read_counted c bound bs =
      then_read (c.read bs) (λ n r. if ltb bound n then none else read_many n r)

  pub read_counted-write :
      (c : Wire ℕ) (bound : ℕ) (xs : List A) (rest : Bytes)
      → c.Fits (length xs)
      → ltb bound (length xs) ≡ false
      → All w.Fits xs
      → read_counted c bound ((c.write (length xs) ++ write_all xs) ++ rest) ≡ some (xs, rest)
  read_counted-write c bound xs rest fits small hs =
      ap (read_counted c bound) (append_assoc (c.write (length xs)) (write_all xs) rest)
      ∙ then_read-some _ (c.read-write (length xs) (write_all xs ++ rest) fits)
          (rw small (read_many-write_all xs rest hs))

  -- `write_vec_cb` and `read_vec_cb`, which refuses more than `MAX_VEC_SIZE` values.
  unfoldable pub vec_wire : Wire (List A)
  vec_wire = record {
    Fits = λ xs. (length xs ≤ 1000000) × All w.Fits xs;
    write = λ xs. big_size_wire.write (length xs) ++ write_all xs;
    read = λ bs. read_counted big_size_wire 1000000 bs;
    read-write = λ xs rest h.
        read_counted-write big_size_wire 1000000 xs rest (omega (arith, h.0)) (ground (arith, h.0))
          h.1;
  }

  -- `write_vec_u16_cb` and `read_vec_u16_cb`, whose length is never above its bound.
  unfoldable pub vec_u16_wire : Wire (List A)
  vec_u16_wire = record {
    Fits = λ xs. (length xs < 65536) × All w.Fits xs;
    write = λ xs. (uint_wire 2).write (length xs) ++ write_all xs;
    read = λ bs. read_counted (uint_wire 2) 65535 bs;
    read-write = λ xs rest h.
        read_counted-write (uint_wire 2) 65535 xs rest (omega (arith, h.0)) (ground (arith, h.0))
          h.1;
  }

-- `write_option_cb` and `read_option_cb`
abbrev write_option : {A : Type 0} → Wire A → Option A → Bytes
write_option w none = 0 ∷ []
write_option w (some a) = 1 ∷ w.write a

abbrev read_option : {A : Type 0} → Wire A → Bytes → Option (Option A × Bytes)
read_option w [] = none
read_option w (x ∷ xs) =
    if x == 0
    then some (none, xs)
    else if x == 1
    then then_read (w.read xs) (λ a r. some (some a, r))
    else none

abbrev OptionFits : {A : Type 0} → Wire A → Option A → Type 0
OptionFits w none = Unit
OptionFits w (some a) = w.Fits a

pub read_option-write_option :
    {A : Type 0} (w : Wire A) (o : Option A) (rest : Bytes)
    → OptionFits w o
    → read_option w (write_option w o ++ rest) ≡ some (o, rest)
read_option-write_option w none rest h = refl
read_option-write_option w (some a) rest h = then_read-some _ (w.read-write a rest h) refl

unfoldable pub option_wire : {A : Type 0} → Wire A → Wire (Option A)
option_wire w = record {
  Fits = OptionFits w;
  write = write_option w;
  read = read_option w;
  read-write = read_option-write_option w;
}

-- Values of which some are refused, like a string's bytes that are not UTF-8.
unfoldable pub checked_wire : {A : Type 0} → Wire A → (A → Bool) → Wire A
checked_wire w valid = record {
  Fits = λ a. w.Fits a × (valid a ≡ true);
  write = λ a. w.write a;
  read = λ bs. then_read (w.read bs) (λ a r. if valid a then some (a, r) else none);
  read-write = λ a rest h. then_read-some _ (w.read-write a rest h.0) (rw h.1 refl);
}

-- `write_as_tlv` and `read_as_tlv`, which does not look at the type and the length.
unfoldable pub tlv_wire : {A : Type 0} → ℕ → Wire A → Wire A
tlv_wire type_id w = record {
  Fits = λ a.
      w.Fits a × (length (w.write a) < 18446744073709551616) × (type_id < 18446744073709551616);
  write =
      λ a. big_size_wire.write type_id ++ (big_size_wire.write (length (w.write a)) ++ w.write a);
  read = λ bs.
      then_read (big_size_wire.read bs)
        (λ t r. then_read (big_size_wire.read r) (λ n r'. w.read r'));
  read-write = λ a rest h.
      let typed = big_size_wire.write type_id in
      let counted = big_size_wire.write (length (w.write a)) in
      ap
        (λ bs.
          then_read (big_size_wire.read bs)
            (λ t r. then_read (big_size_wire.read r) (λ n r'. w.read r')))
        (append_assoc typed (counted ++ w.write a) rest
          ∙ ap (λ bs. typed ++ bs) (append_assoc counted (w.write a) rest))
      ∙ then_read-some _ (big_size_wire.read-write type_id _ h.2) (
          then_read-some _ (big_size_wire.read-write (length (w.write a)) _ h.1)
            (w.read-write a rest h.0));
}
