-- ===== src/Trie/Increasing.antt =====
-- The selectors of the iterator over combinations are strictly increasing, and grow.
use p2p_btc_lending.Prelude.{
  ℕ, zero, suc, ◌+◌, ◌-◌, ◌*◌, ◌^◌, ◌≤◌, ◌<◌, ◌≡◌, ◌≢◌, ◌⊎◌, inl, inr, refl, List, [], ◌∷◌, length,
  ◌==◌, Bool-cases, arith,
}
use native.Mathlib.Nat.{pow-zero, pow-succ', mul-le-mul_right}
use p2p_btc_lending.Trie.{count_from, nth, find_cursor, advance}

-- The numbers increase strictly, from `lo` on and below `n`.
abbrev pub Increasing : ℕ → ℕ → List ℕ → Type 0
Increasing lo n [] = lo ≤ n
Increasing lo n (x ∷ xs) = (lo ≤ x) × Increasing (x + 1) n xs

pub Increasing-count_from : (lo n a k : ℕ) → lo ≤ a → a + k ≤ n → Increasing lo n (count_from a k)
unfolding count_from
Increasing-count_from lo n a zero h h' = omega arith
Increasing-count_from lo n a (suc k) h h' =
    (h, Increasing-count_from (a + 1) n (a + 1) k (omega arith) (omega arith))

pub length-count_from : (a k : ℕ) → length (count_from a k) ≡ k
unfolding count_from
length-count_from a zero = refl
length-count_from a (suc k) = omega (arith, length-count_from (a + 1) k)

-- There is room for the numbers behind an index.
pub nth-room :
    (lo n : ℕ) (xs : List ℕ) (i : ℕ)
    → Increasing lo n xs
    → i < length xs
    → nth xs i + length xs ≤ n + i
nth-room lo n [] i h hi = absurd (omega arith)
nth-room lo n (x ∷ []) zero (h, h') hi = omega arith
nth-room lo n (x ∷ y ∷ xs) zero (h, h') hi =
    omega (arith, nth-room (x + 1) n (y ∷ xs) 0 h' (omega arith), h'.0)
nth-room lo n (x ∷ xs) (suc i) (h, h') hi = omega (arith, nth-room (x + 1) n xs i h' (omega arith))

pub length-advance : (i : ℕ) (xs : List ℕ) → length (advance i xs) ≡ length xs
unfolding advance
length-advance zero [] = refl
length-advance (suc i) [] = refl
length-advance zero (x ∷ xs) = length-count_from (x + 1) (suc (length xs))
length-advance (suc i) (x ∷ xs) = omega (arith, length-advance i xs)

pub Increasing-advance :
    (lo n i : ℕ) (xs : List ℕ)
    → Increasing lo n xs
    → i < length xs
    → nth xs i + 1 + length xs ≤ n + i
    → Increasing lo n (advance i xs)
unfolding advance
Increasing-advance lo n i [] h hi room = absurd (omega arith)
Increasing-advance lo n zero (x ∷ xs) (h, h') hi room =
    Increasing-count_from lo n (x + 1) (suc (length xs)) (omega arith) (omega arith)
Increasing-advance lo n (suc i) (x ∷ xs) (h, h') hi room =
    (h, Increasing-advance (x + 1) n i xs h' (omega arith) (omega arith))

-- The cursor is in range, and stands at the first index or at one that can move.
pub find_cursor_lem :
    (n k : ℕ) (xs : List ℕ) (i : ℕ)
    → (find_cursor n k xs i ≤ i)
      × ((find_cursor n k xs i ≡ 0)
          ⊎ (nth xs (find_cursor n k xs i) ≢ n - 1 - (k - find_cursor n k xs i)))
unfolding find_cursor
find_cursor_lem n k xs zero = (omega arith, inl refl)
find_cursor_lem n k xs (suc i) =
    let (small, kind) = find_cursor_lem n k xs i in
    elim (Bool-cases (nth xs (suc i) == n - 1 - (k - suc i))) [
      | inl e ↦ rw e (omega (arith, small), kind)
      | inr e ↦ rw e (omega arith, inr (λ p. ground (arith, e, p)))
    ]

-- A selector as a number to the base `b`.
unfoldable pub value : ℕ → List ℕ → ℕ
value b [] = 0
value b (x ∷ xs) = x * b ^ length xs + value b xs

mul_succ : (x p : ℕ) → (x + 1) * p ≡ x * p + p
mul_succ x p = omega arith

power_pos : (n k : ℕ) → 0 < (n + 1) ^ k
power_pos n zero = rw (pow-zero (n + 1)) (omega arith)
power_pos n (suc k) =
    rw (pow-succ' (n + 1) k) (omega (arith, power_pos n k, mul_succ n ((n + 1) ^ k)))

digit_below : (x n p v : ℕ) → x ≤ n → v < p → x * p + v < (n + 1) * p
digit_below x n p v h h' = omega (arith, mul-le-mul_right p h, mul_succ n p)

pub value-below :
    (lo n : ℕ) (xs : List ℕ) → Increasing lo n xs → value (n + 1) xs < (n + 1) ^ length xs
unfolding value
value-below lo n [] h = power_pos n 0
value-below lo n (x ∷ xs) (h, h') = rw (pow-succ' (n + 1) (length xs)) (
    digit_below x n ((n + 1) ^ length xs) (value (n + 1) xs) (low x xs h')
      (value-below (x + 1) n xs h'))
  where
    low : (x : ℕ) (xs : List ℕ) → Increasing (x + 1) n xs → x ≤ n
    low x [] h = omega arith
    low x (y ∷ ys) (h, h') = omega (arith, low y ys h')

-- A step of the iterator gives a greater number.
pub value-advance :
    (lo n i : ℕ) (xs : List ℕ)
    → Increasing lo n xs
    → i < length xs
    → value (n + 1) xs < value (n + 1) (advance i xs)
unfolding value advance count_from
value-advance lo n i [] h hi = absurd (omega arith)
value-advance lo n zero (x ∷ xs) (h, h') hi =
    rw (length-count_from (x + 1 + 1) (length xs))
      (omega (arith, value-below (x + 1) n xs h', mul_succ x ((n + 1) ^ length xs)))
value-advance lo n (suc i) (x ∷ xs) (h, h') hi =
    rw (length-advance i xs) (omega (arith, value-advance (x + 1) n i xs h' (omega arith)))
