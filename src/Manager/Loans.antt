-- ===== src/Manager/Loans.antt =====
-- The loan protocol's messages in stable-borrow-cli/crates/dlc-manager/src/manager.rs, with
-- `send_escrow_transaction` of src/contract_updater.rs in that crate. What the code draws at random is an argument.
pub mod Accepting
pub mod Spending
pub mod Offering
use p2p_btc_lending.Prelude.{
  ℕ, Bool, true, false, List, [], ◌∷◌, Option, some, none, Result, ok, err, panic, map_err, ensure,
  unwrap,
}
use p2p_btc_lending.Dlc.Types.{Bytes, TxIn, Transaction}
use p2p_btc_lending.Dlc.Checked.{amount_sub}
use p2p_btc_lending.Dlc.Loan.{to_be_bytes, create_escrow_transaction}
use p2p_btc_lending.Messages.{
  OracleAnnouncement, OfferLoanDlc, AcceptDlc, AcceptLoanDlc, SignDlc, InitiateAcceptLoanDlc,
  to_accept_dlc,
}
use p2p_btc_lending.Contract.Types.{
  Error, dlc_error, invalid_parameters, LoanContractInput, OfferedContract, OfferedLoanContract,
  AcceptedContract, AcceptedLoanContract, SignedContract, Contract, accepted, signed, failed_accept,
  failed_sign,
}
use p2p_btc_lending.Contract.Ids.{get_contract_id}
use p2p_btc_lending.Storage.{
  get_contract, create_loan_contract, set_loan_preimage, get_loan_preimage, set_escrow_txid,
  get_escrow_txid,
}
use p2p_btc_lending.Updater.Accept.{to_accepted_contract}
use p2p_btc_lending.Manager.World.{
  Manager, Step, ◌>>=◌, ◌>>◌, lift, read, modify, update, broadcast, import, lend, unwrap_step,
  unwrap_ok,
}
use p2p_btc_lending.Manager.Lookup.{
  get_contract_in_state, as_offered_loan, as_offered_loan_escrow_confirmed, as_accepted,
}

abbrev pub is_none : {A : Type 0} → Option A → Bool
is_none none = true
is_none (some a) = false

-- The first two items of the first input's witness are replaced.
unfoldable pub sign_witness : Bytes → Bytes → List TxIn → Result Error (List TxIn)
sign_witness signature preimage [] = panic
sign_witness signature preimage (i ∷ is) = elim i.witness [
  | [] ↦ panic
  | x ∷ [] ↦ panic
  | x ∷ y ∷ ws ↦ ok (record i { witness = signature ∷ preimage ∷ ws } ∷ is)
]

module _ (m : Manager) where
  unfoldable pub send_offer_loan_with_announcements :
      LoanContractInput → Bytes → List (List OracleAnnouncement) → ℕ → Step m OfferLoanDlc
  send_offer_loan_with_announcements input counter_party announcements lender_preimage = do
    offer ← lift (m.offer_loan_contract input announcements counter_party lender_preimage)
    modify (λ s. set_loan_preimage m.sled s offer.0.offered_contract.id lender_preimage)
    lift (m.validate_offered_loan_contract offer.0)
    modify (λ s. create_loan_contract m.sled m.codecs s offer.0)
    lift (ok offer.1)

  unfoldable pub on_offer_loan_message : OfferLoanDlc → Bytes → Step m (Unit {0})
  on_offer_loan_message msg counter_party = do
    lift (m.validate_offer_loan_dlc msg)
    contract ← lift (
        m.try_from_offer_loan_dlc msg counter_party
          (m.derive_signer_key_id false msg.offer_dlc.temporary_contract_id))
    lift (m.validate_offered_loan_contract contract)
    existing ← read (λ s. get_contract m.sled m.codecs s contract.offered_contract.id)
    lift (ensure (is_none existing) invalid_parameters)
    modify (λ s. create_loan_contract m.sled m.codecs s contract)

  unfoldable pub send_escrow_transaction : OfferedLoanContract → ℕ → Step m Bytes
  send_escrow_transaction offer borrower_preimage =
      let c = offer.offered_contract in
      do
        signer ← lift (m.derive_contract_signer c.keys_id)
        own_collateral ←
            lift (map_err dlc_error (amount_sub c.total_collateral c.offer_params.collateral))
        accept ← lift (m.get_party_params own_collateral c.fee_rate_per_vb signer)
        escrow ← lift (
            map_err dlc_error (
              create_escrow_transaction m.bitcoin c.offer_params accept.0 c.fee_rate_per_vb
                c.refund_locktime c.fund_output_serial_id 300 borrower_preimage))
        signed_escrow ← lift (m.sign_raw_transaction escrow.0)
        broadcast m signed_escrow
        lift (ok (m.bitcoin.compute_txid escrow.0))

  unfoldable pub initiate_accept_loan_contract_offer :
      Bytes → ℕ → Step m (Bytes × InitiateAcceptLoanDlc)
  unfolding send_escrow_transaction
  initiate_accept_loan_contract_offer id borrower_preimage = do
    offer ← read (λ s. get_contract_in_state m as_offered_loan s id none)
    escrow_txid ← unwrap_step (send_escrow_transaction offer borrower_preimage)
    modify (λ s. set_escrow_txid m.sled s id escrow_txid)
    modify (λ s. set_loan_preimage m.sled s id borrower_preimage)
    lift (
        ok (
          offer.offered_contract.counter_party,
          record {
            protocol_version = 1;
            contract_id = id;
            borrower_hash = m.bitcoin.sha256 (to_be_bytes 16 borrower_preimage);
            escrow_txid = escrow_txid;
          },
        ))

  unfoldable pub accept_loan_contract_offer : Bytes → Step m (Bytes × Bytes × AcceptLoanDlc)
  unfolding to_accepted_contract
  accept_loan_contract_offer id = do
    offer ← read (λ s. get_contract_in_state m as_offered_loan_escrow_confirmed s id none)
    stored_txid ← read (λ s. unwrap_ok (get_escrow_txid m.sled s id))
    escrow_txid ← lift (unwrap stored_txid)
    stored_preimage ← read (λ s. unwrap_ok (get_loan_preimage m.sled s id))
    preimage ← lift (unwrap stored_preimage)
    let preimage_bytes = to_be_bytes 16 preimage
    accept ←
        lift (
          m.accept_loan_contract offer escrow_txid (m.bitcoin.sha256 preimage_bytes) preimage_bytes)
    import m accept.0.dlc_transactions.funding_script_pubkey
    contract_id ← lift (get_contract_id m.bitcoin (to_accepted_contract accept.0))
    update m (accepted (to_accepted_contract accept.0))
    lift (ok (contract_id, offer.offered_contract.counter_party, accept.1))

  unfoldable pub on_initiate_accept_loan_message : InitiateAcceptLoanDlc → Bytes → Step m (Unit {0})
  on_initiate_accept_loan_message msg counter_party = do
    lift m.evm_key
    offer ←
        read (λ s. get_contract_in_state m as_offered_loan s msg.contract_id (some counter_party))
    lift m.evm_provider
    lend m msg.borrower_hash offer.offered_contract.total_collateral

  unfoldable pub accept_fail_on_error :
      {A : Type 0} → OfferedContract → AcceptDlc → Error → Step m A
  accept_fail_on_error offer msg e = do
    update m (
        failed_accept (record {
          offered_contract = offer;
          accept_message = msg;
          error_message = m.to_string e;
        }))
    lift (err e)

  unfoldable pub sign_fail_on_error : {A : Type 0} → AcceptedContract → SignDlc → Error → Step m A
  sign_fail_on_error contract msg e = do
    update m (
        failed_sign (record {
          accepted_contract = contract;
          sign_message = msg;
          error_message = m.to_string e;
        }))
    lift (err e)

  -- What follows the verification of an accept message.
  unfoldable pub verified_accept :
      OfferedContract → AcceptDlc → Result Error (SignedContract × SignDlc) → Step m SignDlc
  unfolding accept_fail_on_error
  verified_accept offer msg (ok c) = do
    import m c.0.accepted_contract.dlc_transactions.funding_script_pubkey
    update m (signed c.0)
    lift (ok c.1)
  verified_accept offer msg (err e) = accept_fail_on_error offer msg e
  verified_accept offer msg panic = lift panic

  unfoldable pub on_accept_loan_message : AcceptLoanDlc → Bytes → Step m SignDlc
  unfolding sign_witness verified_accept
  on_accept_loan_message msg counter_party =
      let tx = msg.signed_escrow_spend_tx in
      do
        loan ← read (λ s.
            get_contract_in_state m as_offered_loan s msg.temporary_contract_id
              (some counter_party))
        let offer = loan.offered_contract
        signer ← lift (m.derive_contract_signer offer.keys_id)
        lift m.evm_provider
        recorded ← lift (unwrap_ok (m.stable_loans msg.borrower_hash))
        signature ←
            lift (unwrap_ok (m.get_sig_for_tx_input tx 0 msg.escrow_spk msg.escrow_amount signer))
        input ← lift (sign_witness signature (to_be_bytes 16 recorded.1) tx.input)
        let collateral_tx = record tx { input = input }
        broadcast m collateral_tx
        verified_accept offer (to_accept_dlc msg) (
            m.verify_accepted_and_sign_loan_contract offer (to_accept_dlc msg) collateral_tx
              msg.collateral_spk)

  unfoldable pub verified_sign :
      AcceptedContract → SignDlc → Result Error (SignedContract × Transaction) → Step m (Unit {0})
  unfolding sign_fail_on_error
  verified_sign contract msg (ok c) = update m (signed c.0)
  verified_sign contract msg (err e) = sign_fail_on_error contract msg e
  verified_sign contract msg panic = lift panic

  unfoldable pub on_sign_message : SignDlc → Bytes → Step m (Unit {0})
  unfolding verified_sign
  on_sign_message msg peer_id = do
    contract ← read (λ s. get_contract_in_state m as_accepted s msg.contract_id (some peer_id))
    verified_sign contract msg (m.verify_signed_contract contract msg)
