-- ===== src/Updater/Inputs/Valid.antt =====
-- Which inputs of a loan are refused.
use p2p_btc_lending.Prelude.{
  ℕ, ◌≤◌, ◌<◌, ◌≡◌, ◌↔◌, refl, List, [], ◌∷◌, All, ok, length, for_each, ◌%◌, ensure, not, ◌==◌,
  ◌||◌, ltb, >>=-eq-ok, >>=-ok, arith,
}
use p2p_btc_lending.Dlc.Types.{Bytes}
use p2p_btc_lending.Dlc.Util.{validate_fee_rate}
use p2p_btc_lending.Contract.Types.{
  invalid_parameters, OracleInput, ContractInputInfo, LoanContractInput,
}
use p2p_btc_lending.Updater.Inputs.{validate_oracles, validate_infos, validate_loan_input}

-- As many oracles as the threshold asks for, and at least one.
abbrev pub Enough : OracleInput → Type 0
Enough o = (0 < o.threshold) × (o.threshold ≤ length o.public_keys % 65536)

checked-Enough :
    (thr : ℕ) (keys : List Bytes) (event_id : Bytes)
    → validate_oracles (record { public_keys = keys; event_id = event_id; threshold = thr }) ≡ ok tt
    → (0 < thr) × (thr ≤ length keys % 65536)
unfolding validate_oracles
checked-Enough thr [] event_id e = ground arith
checked-Enough thr (x ∷ keys) event_id e = ground arith

Enough-checked :
    (thr : ℕ) (keys : List Bytes) (event_id : Bytes)
    → 0 < thr
    → thr ≤ length keys % 65536
    → validate_oracles (record { public_keys = keys; event_id = event_id; threshold = thr }) ≡ ok tt
unfolding validate_oracles
Enough-checked thr [] event_id pos small = absurd (omega (arith, pos, small))
Enough-checked thr (x ∷ keys) event_id pos small = ground arith

loop-Enough :
    (infos : List ContractInputInfo)
    → for_each (λ (i : ContractInputInfo) (u : Unit {0}). validate_oracles i.oracles) infos tt
      ≡ ok tt
    → All (λ i. Enough i.oracles) infos
unfolding for_each
loop-Enough [] e = tt
loop-Enough (x ∷ xs) e =
    let (u, checked, rest) = >>=-eq-ok (validate_oracles x.oracles) _ e in
    let o = x.oracles in
    (checked-Enough o.threshold o.public_keys o.event_id checked, loop-Enough xs rest)

Enough-loop :
    (infos : List ContractInputInfo)
    → All (λ i. Enough i.oracles) infos
    → for_each (λ (i : ContractInputInfo) (u : Unit {0}). validate_oracles i.oracles) infos tt
      ≡ ok tt
unfolding for_each
Enough-loop [] h = refl
Enough-loop (x ∷ xs) (h, hs) =
    let o = x.oracles in
    >>=-ok _ (Enough-checked o.threshold o.public_keys o.event_id h.0 h.1) (Enough-loop xs hs)

-- The bounds on the input of a loan.
abbrev pub IsWithin : LoanContractInput → Type 0
IsWithin c =
    (0 < c.interest_rate)
    × (c.interest_rate ≤ 100)
    × (0 < c.duration)
    × (0 < length c.contract_infos)
    × All (λ i. Enough i.oracles) c.contract_infos
    × (c.fee_rate ≤ 6250)

infos-within :
    (infos : List ContractInputInfo) (fee : ℕ)
    → validate_infos infos fee ≡ ok tt
    → (0 < length infos) × All (λ i. Enough i.oracles) infos × (fee ≤ 6250)
unfolding validate_infos validate_fee_rate
infos-within [] fee e = cc
infos-within (x ∷ xs) fee e =
    let (u, checked, rest) =
      >>=-eq-ok
        (for_each (λ (i : ContractInputInfo) (u : Unit {0}). validate_oracles i.oracles) (x ∷ xs)
          tt)
        _ e in
    (omega arith, loop-Enough (x ∷ xs) checked, ground arith)

within-infos :
    (infos : List ContractInputInfo) (fee : ℕ)
    → 0 < length infos
    → All (λ i. Enough i.oracles) infos
    → fee ≤ 6250
    → validate_infos infos fee ≡ ok tt
unfolding validate_infos validate_fee_rate
within-infos [] fee some h small = absurd (omega (arith, some))
within-infos (x ∷ xs) fee some h small = >>=-ok _ (Enough-loop (x ∷ xs) h) (ground arith)

rate_checked :
    (rate : ℕ) {u : Unit {0}}
    → ensure (not (rate == 0 || ltb 100 rate)) invalid_parameters ≡ ok u
    → (0 < rate) × (rate ≤ 100)
rate_checked rate e = ground arith

duration_checked :
    (duration : ℕ) {u : Unit {0}}
    → ensure (not (duration == 0)) invalid_parameters ≡ ok u
    → 0 < duration
duration_checked duration e = ground arith

-- The input of a loan is valid exactly when its interest rate is from 1 to 100, its duration is not
-- zero, it has at least one condition, the fee rate is at most 6250, and each condition's threshold is
-- from 1 to the number of its oracles' keys, taken modulo 2^16.
pub validate_loan_input_iff : (c : LoanContractInput) → (validate_loan_input c ≡ ok tt) ↔ IsWithin c
unfolding validate_loan_input
validate_loan_input_iff c = (
  λ e.
      let (u, rate, e1) =
        >>=-eq-ok
          (ensure (not (c.interest_rate == 0 || ltb 100 c.interest_rate)) invalid_parameters) _ e in
      let (v, lasts, e2) = >>=-eq-ok (ensure (not (c.duration == 0)) invalid_parameters) _ e1 in
      let (positive, at_most) = rate_checked c.interest_rate rate in
      let (some, oracles, fee) = infos-within c.contract_infos c.fee_rate e2 in
      (positive, at_most, duration_checked c.duration lasts, some, oracles, fee),
  λ (positive, at_most, lasts, some, oracles, fee).
      let rate : ensure (not (c.interest_rate == 0 || ltb 100 c.interest_rate)) invalid_parameters
          ≡ ok tt =
        ground arith in
      let duration : ensure (not (c.duration == 0)) invalid_parameters ≡ ok tt = ground arith in
      >>=-ok _ rate (>>=-ok _ duration (within-infos c.contract_infos c.fee_rate some oracles fee)),
)
