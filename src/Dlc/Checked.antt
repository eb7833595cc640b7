-- ===== src/Dlc/Checked.antt =====
-- Machine arithmetic of stable-borrow-cli/crates/dlc/src/lib.rs. The macro `checked_add!` and
-- `checked_mul(..).ok_or(..)` return an error past 64 bits (a `usize` and an `Amount` have 64 bits);
-- `+` and `-` on an `Amount` panic.
use p2p_btc_lending.Prelude.{
  ℕ, ◌+◌, ◌-◌, ◌*◌, ◌<◌, ◌≡◌, List, [], ◌∷◌, arith, ltb, leb, if◌then◌else◌, Result, ok, err, panic,
  ◌>>=◌, >>=-eq-ok, sum_by,
}
use p2p_btc_lending.Dlc.Types.{Error, invalid_argument}

abbrev pub two_64 : ℕ
two_64 = 18446744073709551616

unfoldable pub checked_add : ℕ → ℕ → Result Error ℕ
checked_add a b = if ltb (a + b) two_64 then ok (a + b) else err invalid_argument

unfoldable pub checked_mul : ℕ → ℕ → Result Error ℕ
checked_mul a b = if ltb (a * b) two_64 then ok (a * b) else err invalid_argument

-- `checked_add!(a, b, c, d)` adds from the left.
unfoldable pub checked_sum : ℕ → List ℕ → Result Error ℕ
checked_sum a [] = ok a
checked_sum a (b ∷ bs) = checked_add a b >>= λ c. checked_sum c bs

unfoldable pub amount_add : ℕ → ℕ → Result Error ℕ
amount_add a b = if ltb (a + b) two_64 then ok (a + b) else panic

unfoldable pub amount_sub : ℕ → ℕ → Result Error ℕ
amount_sub a b = if leb b a then ok (a - b) else panic

-- `a + b + c`
unfoldable pub amount_sum : ℕ → List ℕ → Result Error ℕ
amount_sum a [] = ok a
amount_sum a (b ∷ bs) = amount_add a b >>= λ c. amount_sum c bs

-- `a - b - c`
unfoldable pub amount_less : ℕ → List ℕ → Result Error ℕ
amount_less a [] = ok a
amount_less a (b ∷ bs) = amount_sub a b >>= λ c. amount_less c bs

pub checked_add-ok : (a b c : ℕ) → checked_add a b ≡ ok c → (c ≡ a + b) × (c < two_64)
unfolding checked_add
checked_add-ok a b c h = ground arith

pub checked_mul-ok : (a b c : ℕ) → checked_mul a b ≡ ok c → (c ≡ a * b) × (c < two_64)
unfolding checked_mul
checked_mul-ok a b c h = ground arith

pub amount_add-ok : (a b c : ℕ) → amount_add a b ≡ ok c → (c ≡ a + b) × (c < two_64)
unfolding amount_add
amount_add-ok a b c h = ground arith

pub amount_sub-ok : (a b c : ℕ) → amount_sub a b ≡ ok c → c + b ≡ a
unfolding amount_sub
amount_sub-ok a b c h = ground arith

pub amount_less-ok :
    (a : ℕ) (bs : List ℕ) (c : ℕ) → amount_less a bs ≡ ok c → c + sum_by (λ b. b) bs ≡ a
unfolding amount_less sum_by
amount_less-ok a [] c h = ground arith
amount_less-ok a (b ∷ bs) c h =
    let (d, e, k) = >>=-eq-ok (amount_sub a b) _ h in
    omega (arith, amount_sub-ok a b d e, amount_less-ok d bs c k)
