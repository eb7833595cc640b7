-- ===== src/Contract/Ids.antt =====
-- The ids of a contract: `compute_id` of stable-borrow-cli/crates/dlc-manager/src/utils.rs, and the
-- methods of `Contract` and `AcceptedContract` in src/contract of that crate.
pub mod Distinct
use p2p_btc_lending.Prelude.{
  ℕ, zero, suc, ◌+◌, ◌/◌, ◌%◌, ◌≡◌, List, [], ◌∷◌, bit_xor, get_elem?, Result, ok, panic, map_err,
  unwrap, ◌>>=◌, Option, some, none,
}
use mathlib.Core.List.{reverse}
use p2p_btc_lending.Dlc.Types.{Bytes, Bitcoin, DlcTransactions}
use p2p_btc_lending.Dlc.Funding.{get_fund_output_index}
use p2p_btc_lending.Contract.Types.{
  Error, dlc_error, OfferedContract, OfferedLoanContract, AcceptedContract, SignedContract,
  FailedAcceptContract, FailedSignContract, PreClosedContract, ClosedContract, Contract, offered,
  offered_loan, offered_loan_escrow_confirmed, accepted, signed, confirmed, pre_closed, closed,
  refunded, failed_accept, failed_sign, rejected,
}

-- `for i in 0..n { res[i] = xs[i] ^ ys[i] }`; the code has 32 bytes on each side.
unfoldable pub xor_bytes : Bytes → Bytes → Bytes
xor_bytes [] ys = []
xor_bytes (x ∷ xs) [] = []
xor_bytes (x ∷ xs) (y ∷ ys) = bit_xor x y ∷ xor_bytes xs ys

-- `res[i] ^= v`
abbrev pub xor_at : ℕ → ℕ → Bytes → Bytes
xor_at i v [] = []
xor_at zero v (x ∷ xs) = bit_xor x v ∷ xs
xor_at (suc i) v (x ∷ xs) = x ∷ xor_at i v xs

unfoldable pub compute_id : Bytes → ℕ → Bytes → Bytes
unfolding xor_bytes
compute_id fund_tx_id fund_output_index temporary_id =
    xor_at 31 (fund_output_index % 256)
      (xor_at 30 ((fund_output_index / 256) % 256) (xor_bytes (reverse fund_tx_id) temporary_id))

-- An index as a `u16`.
abbrev pub as_u16 : ℕ → ℕ
as_u16 n = n % 65536

module _ (b : Bitcoin) where
  unfoldable pub contract_id_of : DlcTransactions → Bytes → Result Error Bytes
  contract_id_of txs temporary_id = do
    index ← map_err dlc_error (get_fund_output_index b txs)
    ok (compute_id (b.compute_txid txs.fund) (as_u16 index) temporary_id)

  -- `AcceptedContract::get_contract_id`
  unfoldable pub get_contract_id : AcceptedContract → Result Error Bytes
  unfolding contract_id_of
  get_contract_id c = contract_id_of c.dlc_transactions c.offered_contract.id

  -- `Contract::get_id`
  unfoldable pub get_id : Contract → Result Error Bytes
  get_id (offered o) = ok o.id
  get_id (rejected o) = ok o.id
  get_id (offered_loan o) = ok o.offered_contract.id
  get_id (offered_loan_escrow_confirmed o) = ok o.offered_contract.id
  get_id (accepted o) = get_contract_id o
  get_id (signed o) = get_contract_id o.accepted_contract
  get_id (confirmed o) = get_contract_id o.accepted_contract
  get_id (refunded o) = get_contract_id o.accepted_contract
  get_id (failed_accept c) = ok c.offered_contract.id
  get_id (failed_sign c) = get_contract_id c.accepted_contract
  get_id (pre_closed c) = get_contract_id c.signed_contract.accepted_contract
  get_id (closed c) = ok c.contract_id

unfoldable pub get_temporary_id : Contract → Bytes
get_temporary_id (offered o) = o.id
get_temporary_id (rejected o) = o.id
get_temporary_id (offered_loan o) = o.offered_contract.id
get_temporary_id (offered_loan_escrow_confirmed o) = o.offered_contract.id
get_temporary_id (accepted o) = o.offered_contract.id
get_temporary_id (signed o) = o.accepted_contract.offered_contract.id
get_temporary_id (confirmed o) = o.accepted_contract.offered_contract.id
get_temporary_id (refunded o) = o.accepted_contract.offered_contract.id
get_temporary_id (failed_accept c) = c.offered_contract.id
get_temporary_id (failed_sign c) = c.accepted_contract.offered_contract.id
get_temporary_id (pre_closed c) = c.signed_contract.accepted_contract.offered_contract.id
get_temporary_id (closed c) = c.temporary_contract_id

unfoldable pub get_counter_party_id : Contract → Bytes
get_counter_party_id (offered o) = o.counter_party
get_counter_party_id (rejected o) = o.counter_party
get_counter_party_id (offered_loan o) = o.offered_contract.counter_party
get_counter_party_id (offered_loan_escrow_confirmed o) = o.offered_contract.counter_party
get_counter_party_id (accepted a) = a.offered_contract.counter_party
get_counter_party_id (signed s) = s.accepted_contract.offered_contract.counter_party
get_counter_party_id (confirmed s) = s.accepted_contract.offered_contract.counter_party
get_counter_party_id (refunded s) = s.accepted_contract.offered_contract.counter_party
get_counter_party_id (pre_closed c) =
    c.signed_contract.accepted_contract.offered_contract.counter_party
get_counter_party_id (closed c) = c.counter_party_id
get_counter_party_id (failed_accept f) = f.offered_contract.counter_party
get_counter_party_id (failed_sign f) = f.accepted_contract.offered_contract.counter_party
