-- ===== src/Updater/Accept.antt =====
-- The party that accepts a contract: `accept_contract` and its internal function in stable-borrow-cli/crates/dlc-manager/src/contract_updater.rs, and the messages that
-- src/contract/accepted_contract.rs makes.
use p2p_btc_lending.Prelude.{
  ℕ, List, [], ◌∷◌, ◌++◌, Option, none, some, Result, ok, err, panic, at_index, for_each, length,
  ◌>>=◌,
}
use p2p_btc_lending.Dlc.Types.{Bytes, TxIn, Transaction, Payout, PartyParams, DlcTransactions}
use p2p_btc_lending.Dlc.Checked.{amount_sub}
use p2p_btc_lending.Dlc.Cets.{create_cets}
use p2p_btc_lending.Dlc.Funding.{create_dlc_transactions, get_fund_output}
use p2p_btc_lending.Dlc.Signing.{get_raw_sig_for_tx_input}
use p2p_btc_lending.Messages.{FundingInput, AcceptDlc}
use p2p_btc_lending.Contract.Types.{
  Error, ContractInfo, AdaptorInfo, OfferedContract, AcceptedContract, AcceptedLoanContract,
}
use p2p_btc_lending.Contract.Info.{get_payouts, get_adaptor_info, of_dlc}
use p2p_btc_lending.Updater.{Outside, get_party_params}

abbrev pub protocol_version : ℕ
protocol_version = 1

-- `unwrap_or_else`
abbrev pub option_or {ℓ} : {A : Type ℓ} → Option A → A → A
option_or (some a) d = a
option_or none d = d

-- `unwrap()` on a result
abbrev pub unwrap_ok {ℓ} : {E : Type 0} {A : Type ℓ} → Result E A → Result Error A
unwrap_ok (ok a) = ok a
unwrap_ok (err e) = panic
unwrap_ok panic = panic

-- `iter().skip(1)`
abbrev pub rest_of {ℓ} : {A : Type ℓ} → List A → List A
rest_of [] = []
rest_of (x ∷ xs) = xs

-- What the loop over the contract's conditions collects.
pub record Signatures : Type 0 where
  pub cets : List Transaction
  pub adaptor_infos : List AdaptorInfo
  pub adaptor_sigs : List Bytes

-- The contract execution transactions of a further condition.
abbrev pub further_cets : OfferedContract → PartyParams → TxIn → List Payout → List Transaction
further_cets offered accept_params cet_input payouts =
    create_cets cet_input offered.offer_params.payout_script_pubkey
      offered.offer_params.payout_serial_id accept_params.payout_script_pubkey
      accept_params.payout_serial_id payouts 0

-- `AcceptedContract::get_accept_contract_msg`
unfoldable pub get_accept_contract_msg : AcceptedContract → List Bytes → AcceptDlc
get_accept_contract_msg c ecdsa_adaptor_signatures = record {
  protocol_version = protocol_version;
  temporary_contract_id = c.offered_contract.id;
  accept_collateral = c.accept_params.collateral;
  funding_pubkey = c.accept_params.fund_pubkey;
  payout_spk = c.accept_params.payout_script_pubkey;
  payout_serial_id = c.accept_params.payout_serial_id;
  funding_inputs = c.funding_inputs;
  change_spk = c.accept_params.change_script_pubkey;
  change_serial_id = c.accept_params.change_serial_id;
  cet_adaptor_signatures = ecdsa_adaptor_signatures;
  refund_signature = c.accept_refund_signature;
  negotiation_fields = none;
}

unfoldable pub to_accepted_contract : AcceptedLoanContract → AcceptedContract
to_accepted_contract c = record {
  offered_contract = c.offered_loan_contract.offered_contract;
  accept_params = c.accept_params;
  funding_inputs = c.funding_inputs;
  adaptor_infos = c.adaptor_infos;
  adaptor_signatures = c.adaptor_signatures;
  accept_refund_signature = c.accept_refund_signature;
  dlc_transactions = c.dlc_transactions;
}

module _ (out : Outside) where
  -- The body of the loop over the further conditions.
  unfoldable pub add_signatures :
      OfferedContract
      → PartyParams
      → Bytes
      → ℕ
      → Bytes
      → TxIn
      → ContractInfo
      → Signatures
      → Result Error Signatures
  add_signatures offered accept_params sk value script cet_input contract_info s = do
    payouts ← get_payouts out.bitcoin out.secp out.numericals contract_info offered.total_collateral
    let tmp_cets = further_cets offered accept_params cet_input payouts
    found ←
        get_adaptor_info out.bitcoin out.secp out.numericals contract_info offered.total_collateral
          sk script value tmp_cets (length s.adaptor_sigs)
    ok (record {
      cets = s.cets ++ tmp_cets;
      adaptor_infos = s.adaptor_infos ++ found.0 ∷ [];
      adaptor_sigs = s.adaptor_sigs ++ found.1;
    })

  -- The signatures of all conditions, and that of the refund; the first condition's transactions are
  -- those that the set has.
  unfoldable pub make_signatures :
      OfferedContract
      → PartyParams
      → Bytes
      → ℕ
      → Bytes
      → DlcTransactions
      → Result Error (Signatures × Bytes)
  make_signatures offered accept_params sk value script txs = do
    cet ← at_index txs.cets 0
    cet_input ← at_index cet.input 0
    first_info ← at_index offered.contract_info 0
    first ←
        get_adaptor_info out.bitcoin out.secp out.numericals first_info offered.total_collateral sk
          script value txs.cets 0
    s ←
        for_each (add_signatures offered accept_params sk value script cet_input)
          (rest_of offered.contract_info)
          (record { cets = txs.cets; adaptor_infos = first.0 ∷ []; adaptor_sigs = first.1 })
    refund_signature ← of_dlc (get_raw_sig_for_tx_input out.secp txs.refund 0 script value sk)
    ok (s, refund_signature)

  unfoldable pub accept_contract_internal :
      OfferedContract
      → PartyParams
      → List FundingInput
      → Bytes
      → ℕ
      → Option Bytes
      → DlcTransactions
      → Result Error (AcceptedContract × List Bytes)
  accept_contract_internal offered accept_params funding_inputs adaptor_secret_key input_value
        input_script_pubkey txs =
      do
        made ←
            make_signatures offered accept_params adaptor_secret_key input_value
              (option_or input_script_pubkey txs.funding_script_pubkey) txs
        ok (
          record {
            offered_contract = offered;
            accept_params = accept_params;
            funding_inputs = funding_inputs;
            adaptor_infos = made.0.adaptor_infos;
            adaptor_signatures = none;
            accept_refund_signature = made.1;
            dlc_transactions = record txs { cets = made.0.cets };
          },
          made.0.adaptor_sigs,
        )

  unfoldable pub accept_contract : OfferedContract → Result Error (AcceptedContract × AcceptDlc)
  accept_contract offered = do
    signer ← out.derive_contract_signer offered.keys_id
    own_collateral ← of_dlc (amount_sub offered.total_collateral offered.offer_params.collateral)
    own ← get_party_params out own_collateral offered.fee_rate_per_vb signer
    first_info ← at_index offered.contract_info 0
    payouts ← get_payouts out.bitcoin out.secp out.numericals first_info offered.total_collateral
    txs ← of_dlc (
        create_dlc_transactions out.bitcoin offered.offer_params own.0 payouts
          offered.refund_locktime offered.fee_rate_per_vb 0 offered.cet_locktime
          offered.fund_output_serial_id)
    fund_output ← of_dlc (get_fund_output out.bitcoin txs)
    made ← accept_contract_internal offered own.0 own.1 signer fund_output.value none txs
    ok (made.0, get_accept_contract_msg made.0 made.1)
