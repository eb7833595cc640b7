-- ===== src/Updater/Answer.antt =====
-- The check of the answer to an accepted contract, and the refund: `verify_signed_contract` and
-- `get_signed_refund` in stable-borrow-cli/crates/dlc-manager/src/contract_updater.rs.
use p2p_btc_lending.Prelude.{
  ℕ, List, Option, none, some, if◌then◌else◌, Result, ok, for_each, ◌>>=◌, ◌>>◌,
}
use p2p_btc_lending.Dlc.Types.{Bytes, Transaction}
use p2p_btc_lending.Dlc.Funding.{get_fund_output}
use p2p_btc_lending.Dlc.Signing.{zip, verify_tx_input_sig, sign_multi_sig_input}
use p2p_btc_lending.Messages.{SignDlc}
use p2p_btc_lending.Contract.Types.{
  Error, ContractInfo, AdaptorInfo, AcceptedContract, SignedContract,
}
use p2p_btc_lending.Contract.Info.{verify_adaptor_info, of_dlc}
use p2p_btc_lending.Updater.{Outside}
use p2p_btc_lending.Updater.Accept.{option_or}

module _ (out : Outside) where
  -- The loop over the conditions: each checks its signatures from where the one before stopped.
  unfoldable pub check_answer :
      Bytes
      → Bytes
      → ℕ
      → List Transaction
      → List Bytes
      → AdaptorInfo × ContractInfo
      → ℕ
      → Result Error ℕ
  check_answer counter_adaptor_pk script value cets sigs c adaptor_sig_start =
      verify_adaptor_info out.bitcoin out.secp out.numericals c.1 counter_adaptor_pk script value
        cets sigs adaptor_sig_start c.0

  unfoldable pub verify_signed_contract_internal :
      AcceptedContract
      → Bytes
      → List Bytes
      → List (List Bytes)
      → ℕ
      → Option Bytes
      → Option Bytes
      → Option Bytes
      → Result Error (SignedContract × Transaction)
  verify_signed_contract_internal accepted refund_signature cet_adaptor_signatures
        funding_signatures input_value input_script_pubkey counter_adaptor_pk channel_id =
      do
        let txs = accepted.dlc_transactions
        let script = option_or input_script_pubkey txs.funding_script_pubkey
        let counter =
            option_or counter_adaptor_pk accepted.offered_contract.offer_params.fund_pubkey
        of_dlc
            (verify_tx_input_sig out.secp refund_signature txs.refund 0 script input_value counter)
        adaptor_sig_end ←
            for_each (check_answer counter script input_value txs.cets cet_adaptor_signatures)
              (zip accepted.adaptor_infos accepted.offered_contract.contract_info) 0
        ok (
          record {
            accepted_contract = accepted;
            adaptor_signatures = some cet_adaptor_signatures;
            offer_refund_signature = refund_signature;
            funding_signatures = funding_signatures;
            channel_id = channel_id;
          },
          txs.fund,
        )

  unfoldable pub verify_signed_contract :
      AcceptedContract → SignDlc → Result Error (SignedContract × Transaction)
  verify_signed_contract accepted msg = do
    fund_output ← of_dlc (get_fund_output out.bitcoin accepted.dlc_transactions)
    verify_signed_contract_internal accepted msg.refund_signature msg.cet_adaptor_signatures
        msg.funding_signatures fund_output.value none none none

  -- The other party's key and its signature of the refund.
  unfoldable pub refund_counter : SignedContract → Bytes × Bytes
  refund_counter c =
      if c.accepted_contract.offered_contract.is_offer_party
      then (
        c.accepted_contract.accept_params.fund_pubkey, c.accepted_contract.accept_refund_signature,
      )
      else (c.accepted_contract.offered_contract.offer_params.fund_pubkey, c.offer_refund_signature)

  unfoldable pub get_signed_refund : SignedContract → Bytes → Result Error Transaction
  unfolding refund_counter
  get_signed_refund c signer = do
    let txs = c.accepted_contract.dlc_transactions
    fund_output ← of_dlc (get_fund_output out.bitcoin txs)
    let counter = refund_counter c
    of_dlc (
        sign_multi_sig_input out.secp txs.refund counter.1 counter.0 signer
          txs.funding_script_pubkey fund_output.value 0)
