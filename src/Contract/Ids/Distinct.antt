-- ===== src/Contract/Ids/Distinct.antt =====
-- Ids of different contracts differ.
use p2p_btc_lending.Prelude.{
  ℕ, zero, suc, ◌+◌, ◌/◌, ◌%◌, ◌<◌, ◌≡◌, ◌≢◌, refl, Bool, true, false, ◌&&◌, [], ◌∷◌, ◌++◌, bit_xor,
  length, All, arith, ltb, ◌==◌, if◌then◌else◌,
}
use mathlib.Core.List.{reverse, reverse-append}
use p2p_btc_lending.Dlc.Types.{Bytes}
use p2p_btc_lending.Contract.Ids.{xor_bytes, xor_at, compute_id}

-- A test of every number under a bound.
passes : (ℕ → Bool) → ℕ → Bool
passes test zero = true
passes test (suc k) = if test k then passes test k else false

passes-lt : (test : ℕ → Bool) (n k : ℕ) → k < n → passes test n ≡ true → test k ≡ true
unfolding passes
passes-lt test zero k lt e = absurd (omega (arith, lt))
passes-lt test (suc n) k lt e =
    let smaller : k < n → passes test n ≡ true → test k ≡ true = passes-lt test n k in
    ground (arith, smaller)

abbrev xor_ok : ℕ → ℕ → Bool
xor_ok x y =
    (bit_xor x (bit_xor x y) == y) && ((bit_xor (bit_xor x y) y == x) && ltb (bit_xor x y) 256)

xor_bytes_table : passes (λ x. passes (xor_ok x) 256) 256 ≡ true
unfolding passes
xor_bytes_table = refl

xor_ok_byte : (x y : ℕ) → x < 256 → y < 256 → xor_ok x y ≡ true
xor_ok_byte x y hx hy =
    passes-lt (xor_ok x) 256 y hy (passes-lt (λ x. passes (xor_ok x) 256) 256 x hx xor_bytes_table)

xor_left : (x y : ℕ) → x < 256 → y < 256 → bit_xor x (bit_xor x y) ≡ y
xor_left x y hx hy = ground (arith, xor_ok_byte x y)

xor_right : (x y : ℕ) → x < 256 → y < 256 → bit_xor (bit_xor x y) y ≡ x
xor_right x y hx hy = ground (arith, xor_ok_byte x y)

xor_lt : (x y : ℕ) → x < 256 → y < 256 → bit_xor x y < 256
xor_lt x y hx hy = ground (arith, xor_ok_byte x y)

abbrev pub AllBytes : Bytes → Type 0
AllBytes = All (λ x. x < 256)

AllBytes-append : (xs ys : Bytes) → AllBytes xs → AllBytes ys → AllBytes (xs ++ ys)
AllBytes-append [] ys h k = k
AllBytes-append (x ∷ xs) ys h k = (h.0, AllBytes-append xs ys h.1 k)

length-append : (xs ys : Bytes) → length (xs ++ ys) ≡ length xs + length ys
length-append [] ys = omega arith
length-append (x ∷ xs) ys = omega (arith, length-append xs ys)

reverse-AllBytes : (xs : Bytes) → AllBytes xs → AllBytes (reverse xs)
reverse-AllBytes [] h = tt
reverse-AllBytes (x ∷ xs) h =
    rw (reverse-append (x ∷ []) xs)
      (AllBytes-append (reverse xs) (x ∷ []) (reverse-AllBytes xs h.1) (h.0, tt))

length-reverse : (xs : Bytes) → length (reverse xs) ≡ length xs
length-reverse [] = refl
length-reverse (x ∷ xs) =
    rw (reverse-append (x ∷ []) xs)
      (omega (arith, length-append (reverse xs) (x ∷ []), length-reverse xs))

xor_bytes-AllBytes : (xs ys : Bytes) → AllBytes xs → AllBytes ys → AllBytes (xor_bytes xs ys)
unfolding xor_bytes
xor_bytes-AllBytes [] ys h k = tt
xor_bytes-AllBytes (x ∷ xs) [] h k = tt
xor_bytes-AllBytes (x ∷ xs) (y ∷ ys) h k = (xor_lt x y h.0 k.0, xor_bytes-AllBytes xs ys h.1 k.1)

xor_bytes-injective :
    (xs ys zs : Bytes)
    → AllBytes xs
    → AllBytes ys
    → AllBytes zs
    → length xs ≡ length ys
    → length xs ≡ length zs
    → xor_bytes xs ys ≡ xor_bytes xs zs
    → ys ≡ zs
unfolding xor_bytes
xor_bytes-injective [] [] [] hx hy hz ly lz e = refl
xor_bytes-injective [] [] (z ∷ zs) hx hy hz ly lz e = absurd (omega arith)
xor_bytes-injective [] (y ∷ ys) zs hx hy hz ly lz e = absurd (omega arith)
xor_bytes-injective (x ∷ xs) [] zs hx hy hz ly lz e = absurd (omega arith)
xor_bytes-injective (x ∷ xs) (y ∷ ys) [] hx hy hz ly lz e = absurd (omega arith)
xor_bytes-injective (x ∷ xs) (y ∷ ys) (z ∷ zs) hx hy hz ly lz e = cc (
  xor_left x y hx.0 hy.0,
  xor_left x z hx.0 hz.0,
  xor_bytes-injective xs ys zs hx.1 hy.1 hz.1 (omega arith) (omega arith) (cc),
)

xor_at-AllBytes : (i v : ℕ) (xs : Bytes) → v < 256 → AllBytes xs → AllBytes (xor_at i v xs)
xor_at-AllBytes i v [] hv h = tt
xor_at-AllBytes zero v (x ∷ xs) hv h = (xor_lt x v h.0 hv, h.1)
xor_at-AllBytes (suc i) v (x ∷ xs) hv h = (h.0, xor_at-AllBytes i v xs hv h.1)

xor_at-injective :
    (i v : ℕ) (xs ys : Bytes)
    → v < 256
    → AllBytes xs
    → AllBytes ys
    → xor_at i v xs ≡ xor_at i v ys
    → xs ≡ ys
xor_at-injective i v [] [] hv hx hy e = refl
xor_at-injective zero v [] (y ∷ ys) hv hx hy e = cc
xor_at-injective (suc i) v [] (y ∷ ys) hv hx hy e = cc
xor_at-injective zero v (x ∷ xs) [] hv hx hy e = cc
xor_at-injective (suc i) v (x ∷ xs) [] hv hx hy e = cc
xor_at-injective zero v (x ∷ xs) (y ∷ ys) hv hx hy e =
    cc (xor_right x v hx.0 hv, xor_right y v hy.0 hv)
xor_at-injective (suc i) v (x ∷ xs) (y ∷ ys) hv hx hy e =
    cc (xor_at-injective i v xs ys hv hx.1 hy.1 (cc))

compute_id-injective :
    (txid : Bytes) (index : ℕ) (t t' : Bytes)
    → AllBytes txid
    → AllBytes t
    → AllBytes t'
    → length txid ≡ 32
    → length t ≡ 32
    → length t' ≡ 32
    → compute_id txid index t ≡ compute_id txid index t'
    → t ≡ t'
unfolding compute_id
compute_id-injective txid index t t' hx ht ht' lx lt lt' e =
    let r = reverse-AllBytes txid hx in
    let b = xor_bytes-AllBytes (reverse txid) t r ht in
    let b' = xor_bytes-AllBytes (reverse txid) t' r ht' in
    let hi : (index / 256) % 256 < 256 = omega arith in
    let lo : index % 256 < 256 = omega arith in
    xor_bytes-injective (reverse txid) t t' r ht ht' (omega (arith, length-reverse txid))
      (omega (arith, length-reverse txid))
      (xor_at-injective 30 _ _ _ hi b b' (
        xor_at-injective 31 _ _ _ lo (xor_at-AllBytes 30 _ _ hi b) (xor_at-AllBytes 30 _ _ hi b')
          e))

-- For one funding output, two different temporary ids of 32 bytes give different contract ids.
pub compute_id-ne :
    (txid : Bytes) (index : ℕ) (t t' : Bytes)
    → AllBytes txid
    → AllBytes t
    → AllBytes t'
    → length txid ≡ 32
    → length t ≡ 32
    → length t' ≡ 32
    → t ≢ t'
    → compute_id txid index t ≢ compute_id txid index t'
compute_id-ne txid index t t' hx ht ht' lx lt lt' n e =
    n (compute_id-injective txid index t t' hx ht ht' lx lt lt' e)
