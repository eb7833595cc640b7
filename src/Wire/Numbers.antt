-- ===== src/Wire/Numbers.antt =====
-- Integers as bytes, and the integers of variable length.
use p2p_btc_lending.Prelude.{
  ℕ, ◌^◌, ◌<◌, ◌≡◌, refl, ap, [], ◌∷◌, ◌++◌, Option, none, some, Bool, true, false, ltb, ◌==◌,
  if◌then◌else◌, Bool-cases, inl, inr, arith,
}
use p2p_btc_lending.Dlc.Types.{Bytes}
use p2p_btc_lending.Dlc.Loan.{to_be_bytes}
use p2p_btc_lending.Storage.{from_be_bytes_from}
use p2p_btc_lending.Storage.Laws.{from_be_bytes-to_be_bytes, to_be_bytes-length}
use p2p_btc_lending.Wire.{Wire, then_read, then_read-some, read_fixed, read_fixed-append}

-- `u8`, `u16`, `u32` and `u64`, by their number of bytes
abbrev pub read_uint : ℕ → Bytes → Option (ℕ × Bytes)
read_uint k bs = then_read (read_fixed k bs) (λ xs rest. some (from_be_bytes_from 0 xs, rest))

pub read_uint-to_be_bytes :
    (k n : ℕ) (rest : Bytes) → n < 256 ^ k → read_uint k (to_be_bytes k n ++ rest) ≡ some (n, rest)
read_uint-to_be_bytes k n rest h =
    then_read-some _ (rw (to_be_bytes-length k n) at (read_fixed-append (to_be_bytes k n) rest))
      (ap (λ x. some (x, rest)) (from_be_bytes-to_be_bytes k n h))

abbrev pub uint_wire : ℕ → Wire ℕ
uint_wire k = record {
  Fits = λ n. n < 256 ^ k;
  write = λ n. to_be_bytes k n;
  read = λ bs. read_uint k bs;
  read-write = λ n rest h. read_uint-to_be_bytes k n rest h;
}

abbrev pub read_byte : Bytes → Option (ℕ × Bytes)
read_byte [] = none
read_byte (x ∷ xs) = some (x, xs)

abbrev pub u8_wire : Wire ℕ
u8_wire = record {
  Fits = λ n. n < 256;
  write = λ n. n ∷ [];
  read = read_byte;
  read-write = λ n rest h. refl;
}

abbrev pub write_bool : Bool → Bytes
write_bool true = 1 ∷ []
write_bool false = 0 ∷ []

abbrev pub read_bool : Bytes → Option (Bool × Bytes)
read_bool [] = none
read_bool (x ∷ xs) = if x == 0 then some (false, xs) else if x == 1 then some (true, xs) else none

pub read_bool-write_bool :
    (b : Bool) (rest : Bytes) → read_bool (write_bool b ++ rest) ≡ some (b, rest)
read_bool-write_bool true rest = refl
read_bool-write_bool false rest = refl

abbrev pub bool_wire : Wire Bool
bool_wire = record {
  Fits = λ b. Unit;
  write = write_bool;
  read = read_bool;
  read-write = λ b rest h. read_bool-write_bool b rest;
}

-- `BigSize`
unfoldable pub write_big_size : ℕ → Bytes
write_big_size n =
    if ltb n 253
    then n ∷ []
    else if ltb n 65536
    then 253 ∷ to_be_bytes 2 n
    else if ltb n 4294967296
    then 254 ∷ to_be_bytes 4 n
    else 255 ∷ to_be_bytes 8 n

-- A value that a shorter form has is refused.
abbrev at_least : ℕ → Option (ℕ × Bytes) → Option (ℕ × Bytes)
at_least k r = then_read r (λ n rest. if ltb n k then none else some (n, rest))

unfoldable pub read_big_size : Bytes → Option (ℕ × Bytes)
read_big_size [] = none
read_big_size (x ∷ xs) =
    if x == 255
    then at_least 4294967296 (read_uint 8 xs)
    else if x == 254
    then at_least 65536 (read_uint 4 xs)
    else if x == 253
    then at_least 253 (read_uint 2 xs)
    else some (x, xs)

at_least-uint :
    (k w n : ℕ) (rest : Bytes)
    → ltb n k ≡ false
    → n < 256 ^ w
    → at_least k (read_uint w (to_be_bytes w n ++ rest)) ≡ some (n, rest)
at_least-uint k w n rest e h = then_read-some _ (read_uint-to_be_bytes w n rest h) (rw e refl)

read_big_size-short :
    (n : ℕ) (rest : Bytes) → ltb n 253 ≡ true → read_big_size (n ∷ rest) ≡ some (n, rest)
unfolding read_big_size
read_big_size-short n rest h =
    let a : (n == 255) ≡ false = ground arith in
    let b : (n == 254) ≡ false = ground arith in
    let c : (n == 253) ≡ false = ground arith in rw (a, b, c) refl

-- A number of 64 bits is read back from its BigSize as it was, whatever bytes follow; the reader, which
-- refuses a number that has a shorter form, refuses none that was written.
pub read_big_size-write_big_size :
    (n : ℕ) (rest : Bytes)
    → n < 18446744073709551616
    → read_big_size (write_big_size n ++ rest) ≡ some (n, rest)
unfolding write_big_size read_big_size
read_big_size-write_big_size n rest h = elim (Bool-cases (ltb n 253)) [
  | inl e ↦ rw e (read_big_size-short n rest e)
  | inr e ↦ elim (Bool-cases (ltb n 65536)) [
    | inl f ↦ rw (e, f) (at_least-uint 253 2 n rest e (ground arith))
    | inr f ↦ elim (Bool-cases (ltb n 4294967296)) [
      | inl g ↦ rw (e, f, g) (at_least-uint 65536 4 n rest f (ground arith))
      | inr g ↦ rw (e, f, g) (at_least-uint 4294967296 8 n rest g h)
    ]
  ]
]

abbrev pub big_size_wire : Wire ℕ
big_size_wire = record {
  Fits = λ n. n < 18446744073709551616;
  write = write_big_size;
  read = read_big_size;
  read-write = read_big_size-write_big_size;
}
