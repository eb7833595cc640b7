-- ===== src/Updater/Inputs.antt =====
-- The validation of what a user asks for: stable-borrow-cli/crates/dlc-manager/src/contract/
-- contract_input.rs.
pub mod Valid
use p2p_btc_lending.Prelude.{
  ℕ, ◌+◌, ◌%◌, ◌^◌, max, List, [], ◌∷◌, ◌++◌, map, length, Bool, ltb, leb, ◌==◌, ◌||◌, not, true,
  false, Option, none, some, Result, ok, err, ensure, assert, unwrap, for_each, ◌>>=◌, ◌>>◌,
}
use p2p_btc_lending.Dlc.Types.{Bytes, PartyParams}
use p2p_btc_lending.Dlc.Checked.{amount_add}
use p2p_btc_lending.Dlc.Util.{validate_fee_rate}
use p2p_btc_lending.Dlc.Loan.{to_be_bytes}
use p2p_btc_lending.Dlc.Signing.{zip}
use p2p_btc_lending.Messages.{OracleAnnouncement, FundingInput, OfferDlc, OfferLoanDlc}
use p2p_btc_lending.Contract.Types.{
  Error, invalid_parameters, OracleInput, ContractInputInfo, ContractInput, LoanContractInput,
  ContractInfo, OfferedContract, OfferedLoanContract,
}
use p2p_btc_lending.Contract.Ids.{as_u16}
use p2p_btc_lending.Contract.Info.{of_dlc}

abbrev is_empty {ℓ} : {A : Type ℓ} → List A → Bool
is_empty [] = true
is_empty (x ∷ xs) = false

unfoldable pub validate_oracles : OracleInput → Result Error (Unit {0})
validate_oracles o = do
  ensure (not (is_empty o.public_keys)) invalid_parameters
  ensure (not (ltb (as_u16 (length o.public_keys)) o.threshold)) invalid_parameters
  ensure (not (o.threshold == 0)) invalid_parameters
  ok tt

-- The fee's refusal is not told from the others, as their texts are left out.
abbrev refused : Result Error (Unit {0}) → Result Error (Unit {0})
refused (err e) = err invalid_parameters
refused r = r

unfoldable pub validate_infos : List ContractInputInfo → ℕ → Result Error (Unit {0})
validate_infos infos fee_rate = do
  ensure (not (is_empty infos)) invalid_parameters
  u ← for_each (λ (i : ContractInputInfo) (u : Unit {0}). validate_oracles i.oracles) infos tt
  refused (of_dlc (validate_fee_rate fee_rate))

unfoldable pub validate_input : ContractInput → Result Error (Unit {0})
validate_input c = validate_infos c.contract_infos c.fee_rate

unfoldable pub validate_loan_input : LoanContractInput → Result Error (Unit {0})
validate_loan_input c = do
  ensure (not (c.interest_rate == 0 || ltb 100 c.interest_rate)) invalid_parameters
  ensure (not (c.duration == 0)) invalid_parameters
  validate_infos c.contract_infos c.fee_rate
