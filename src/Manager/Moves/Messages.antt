-- ===== src/Manager/Moves/Messages.antt =====
-- The moves of the handlers of messages.
use p2p_btc_lending.Prelude.{
  ℕ, ◌≡◌, refl, sym, subst, ap, ◌∙◌, List, ◌∷◌, Option, some, none, Result, ok, err, panic, ensure,
  ensure-ok, unwrap, map_err,
}
use p2p_btc_lending.Dlc.Types.{Bytes, Transaction}
use p2p_btc_lending.Dlc.Checked.{amount_sub}
use p2p_btc_lending.Dlc.Loan.{to_be_bytes, create_escrow_transaction}
use p2p_btc_lending.Messages.{
  OracleAnnouncement, OfferLoanDlc, AcceptDlc, AcceptLoanDlc, SignDlc, InitiateAcceptLoanDlc,
  to_accept_dlc,
}
use p2p_btc_lending.Contract.Types.{
  Error, dlc_error, invalid_parameters, LoanContractInput, OfferedLoanContract, AcceptedContract,
  SignedContract, FailedAcceptContract, FailedSignContract, Contract, offered_loan,
  offered_loan_escrow_confirmed, accepted, signed, failed_accept, failed_sign,
}
use p2p_btc_lending.Contract.Ids.{get_contract_id}
use p2p_btc_lending.Storage.{
  Store, get_contract, get_escrow_txid, get_loan_preimage, set_loan_preimage, set_escrow_txid,
  update_contract, create_loan_contract,
}
use p2p_btc_lending.Updater.Accept.{to_accepted_contract}
use p2p_btc_lending.Manager.World.{Manager, World, Step, ◌>>=◌, unwrap_ok, unwrap_step}
use p2p_btc_lending.Manager.Runs.{Always, lift-Always, read-Always}
use p2p_btc_lending.Manager.Changes.{
  broadcast-Always, import-Always, update-Always, update-Always_end, bind-Always,
  unwrap_step-Always, modify-Always, lend-Always_end,
}
use p2p_btc_lending.Manager.Lookup.{
  get_contract_in_state, get_contract_in_state_iff, as_offered_loan,
  as_offered_loan_escrow_confirmed, as_accepted,
}
use p2p_btc_lending.Manager.Loans.{
  is_none, sign_witness, send_offer_loan_with_announcements, on_offer_loan_message,
  send_escrow_transaction, initiate_accept_loan_contract_offer, accept_loan_contract_offer,
  on_initiate_accept_loan_message, accept_fail_on_error, sign_fail_on_error, verified_accept,
  verified_sign, on_accept_loan_message, on_sign_message,
}
use p2p_btc_lending.Manager.Loans.Offering.{is_none-eq, offer_of}
use p2p_btc_lending.Manager.Moves.{
  accept_loan, lender_sign, refuse_accept, borrower_sign, refuse_sign, Moves, stay, offer,
  keep_secrets, keep_preimage, own_offer, advance, MovesRun,
}
use p2p_btc_lending.Manager.Moves.Found.{
  as_offered_loan-eq, as_offered_loan_escrow_confirmed-eq, as_accepted-eq,
}

-- A contract that was found in a state is stored in that state.
found-stored :
    {A : Type 0} (m : Manager) (view : Contract → Option A) (con : A → Contract) (s : Store m.sled)
    (id : Bytes) (peer : Option Bytes) (a : A)
    → ((c : Contract) (a : A) → view c ≡ some a → c ≡ con a)
    → get_contract_in_state m view s id peer ≡ ok a
    → get_contract m.sled m.codecs s id ≡ ok (some (con a))
found-stored m view con s id peer a inv h =
    let (c, stored, involved, seen) = (get_contract_in_state_iff m view s id peer a).0 h in
    stored ∙ ap ok (ap some (inv c a seen))

module _ (m : Manager) (w : World m) where
  pub on_offer_loan_message-MovesRun :
      (msg : OfferLoanDlc) (peer : Bytes) → MovesRun w.store (on_offer_loan_message m msg peer w)
  unfolding on_offer_loan_message
  on_offer_loan_message-MovesRun msg peer =
      lift-Always w (m.validate_offer_loan_dlc msg) _ stay (λ _ _.
        lift-Always w (offer_of m msg peer) _ stay (λ c eo.
          lift-Always w (m.validate_offered_loan_contract c) _ stay (λ _ ev.
            read-Always w (λ s. get_contract m.sled m.codecs s c.offered_contract.id) _ stay
              (λ found ef. lift-Always w (ensure (is_none found) invalid_parameters) _ stay (λ _ et.
                record {
                  after = offer msg peer c eo ev (ef ∙ ap ok (is_none-eq found (ensure-ok _ _ et)));
                })))))

  pub send_offer_loan_with_announcements-MovesRun :
      (input : LoanContractInput) (peer : Bytes) (announcements : List (List OracleAnnouncement))
      (preimage : ℕ)
      → MovesRun w.store (send_offer_loan_with_announcements m input peer announcements preimage w)
  unfolding send_offer_loan_with_announcements
  send_offer_loan_with_announcements-MovesRun input peer announcements preimage =
      lift-Always w (m.offer_loan_contract input announcements peer preimage) _ stay (λ made _.
        let c = made.0 in
        modify-Always w (λ s. set_loan_preimage m.sled s c.offered_contract.id preimage) _
          (lift-Always _ (m.validate_offered_loan_contract c) _
            (keep_preimage c.offered_contract.id preimage)
            (λ _ ev.
              modify-Always _ (λ s. create_loan_contract m.sled m.codecs s c) _
                (record { after = own_offer c preimage ev }))))

  send_escrow_transaction-store :
      (c : OfferedLoanContract) (preimage : ℕ)
      → Always (λ w'. w'.store ≡ w.store) (send_escrow_transaction m c preimage w)
  unfolding send_escrow_transaction
  send_escrow_transaction-store c preimage =
      let o = c.offered_contract in
      lift-Always w (m.derive_contract_signer o.keys_id) _ refl (λ signer _.
        lift-Always w (map_err dlc_error (amount_sub o.total_collateral o.offer_params.collateral))
          _ refl
          (λ own _.
            lift-Always w (m.get_party_params own o.fee_rate_per_vb signer) _ refl (λ accept _.
              lift-Always w
                (map_err dlc_error (
                  create_escrow_transaction m.bitcoin o.offer_params accept.0 o.fee_rate_per_vb
                    o.refund_locktime o.fund_output_serial_id 300 preimage))
                _ refl
                (λ escrow _.
                  lift-Always w (m.sign_raw_transaction escrow.0) _ refl
                    (λ tx _. broadcast-Always w tx _ refl (record { after = refl }))))))

  -- A call that keeps the store, and what follows it.
  unwrap_step-MovesRun :
      {A B : Type 0} (s : Step m A) (f : A → Step m B)
      → Always (λ w'. w'.store ≡ w.store) (s w)
      → ((a : A) (w' : World m) → w'.store ≡ w.store → MovesRun w.store (f a w'))
      → MovesRun w.store ((unwrap_step s >>= f) w)
  unwrap_step-MovesRun s f keeps h =
      let run = unwrap_step-Always w s keeps in
      bind-Always w (unwrap_step s) f
        (record { after = subst (Moves m w.store) (sym run.after) stay })
        (λ a w' e. h a w' (subst (λ p. p.0.store ≡ w.store) e run.after))

  verified_accept-MovesRun :
      (w' : World m) (loan : OfferedLoanContract) (id : Bytes) (msg : AcceptDlc) (tx : Transaction)
      (spk : Bytes) (r : Result Error (SignedContract × SignDlc))
      → m.verify_accepted_and_sign_loan_contract loan.offered_contract msg tx spk ≡ r
      → w'.store ≡ w.store
      → get_contract m.sled m.codecs w.store id ≡ ok (some (offered_loan loan))
      → MovesRun w.store (verified_accept m loan.offered_contract msg r w')
  unfolding verified_accept accept_fail_on_error
  verified_accept-MovesRun w' loan id msg tx spk (ok c) ev same stored =
      let q : Moves m w.store w'.store = subst (Moves m w.store) (sym same) stay in
      import-Always w' c.0.accepted_contract.dlc_transactions.funding_script_pubkey _ q (
        update-Always _ (signed c.0) _ q (λ s es. record {
          after =
              advance (offered_loan loan) (signed c.0) id s stored
                (lender_sign loan msg tx spk c ev)
                (subst (λ t. update_contract m.sled m.codecs m.bitcoin t (signed c.0) ≡ ok s) same
                  es);
        }))
  verified_accept-MovesRun w' loan id msg tx spk (err e) ev same stored =
      let q : Moves m w.store w'.store = subst (Moves m w.store) (sym same) stay in
      let f : FailedAcceptContract = record {
        offered_contract = loan.offered_contract;
        accept_message = msg;
        error_message = m.to_string e;
      } in
      update-Always w' (failed_accept f) _ q (λ s es. record {
        after =
            advance (offered_loan loan) (failed_accept f) id s stored
              (refuse_accept loan msg tx spk e ev)
              (subst (λ t. update_contract m.sled m.codecs m.bitcoin t (failed_accept f) ≡ ok s)
                same es);
      })
  verified_accept-MovesRun w' loan id msg tx spk panic ev same stored = record {
    after = subst (Moves m w.store) (sym same) stay;
  }

  pub on_accept_loan_message-MovesRun :
      (msg : AcceptLoanDlc) (peer : Bytes) → MovesRun w.store (on_accept_loan_message m msg peer w)
  unfolding on_accept_loan_message
  on_accept_loan_message-MovesRun msg peer =
      let tx = msg.signed_escrow_spend_tx in
      read-Always w
        (λ s. get_contract_in_state m as_offered_loan s msg.temporary_contract_id (some peer)) _
        stay
        (λ loan ef.
          lift-Always w (m.derive_contract_signer loan.offered_contract.keys_id) _ stay (λ signer _.
            lift-Always w m.evm_provider _ stay (λ _ _.
              lift-Always w (unwrap_ok (m.stable_loans msg.borrower_hash)) _ stay (λ recorded _.
                lift-Always w
                  (unwrap_ok (m.get_sig_for_tx_input tx 0 msg.escrow_spk msg.escrow_amount signer))
                  _ stay
                  (λ signature _.
                    lift-Always w (sign_witness signature (to_be_bytes 16 recorded.1) tx.input) _
                      stay
                      (λ inputs _.
                        broadcast-Always w (record tx { input = inputs }) _ stay
                          (verified_accept-MovesRun
                            (record w { sent = record tx { input = inputs } ∷ w.sent }) loan
                            msg.temporary_contract_id (to_accept_dlc msg)
                            (record tx { input = inputs }) msg.collateral_spk _ refl refl
                            (found-stored m as_offered_loan offered_loan w.store _ _ loan
                              as_offered_loan-eq ef))))))))

  verified_sign-MovesRun :
      (a : AcceptedContract) (id : Bytes) (msg : SignDlc)
      (r : Result Error (SignedContract × Transaction))
      → m.verify_signed_contract a msg ≡ r
      → get_contract m.sled m.codecs w.store id ≡ ok (some (accepted a))
      → MovesRun w.store (verified_sign m a msg r w)
  unfolding verified_sign sign_fail_on_error
  verified_sign-MovesRun a id msg (ok c) ev stored =
      update-Always_end w (signed c.0) stay
        (λ s es. advance (accepted a) (signed c.0) id s stored (borrower_sign a msg c ev) es)
  verified_sign-MovesRun a id msg (err e) ev stored =
      let f : FailedSignContract = record {
        accepted_contract = a;
        sign_message = msg;
        error_message = m.to_string e;
      } in
      update-Always w (failed_sign f) _ stay (λ s es. record {
        after = advance (accepted a) (failed_sign f) id s stored (refuse_sign a msg e ev) es;
      })
  verified_sign-MovesRun a id msg panic ev stored = record { after = stay }

  pub on_sign_message-MovesRun :
      (msg : SignDlc) (peer : Bytes) → MovesRun w.store (on_sign_message m msg peer w)
  unfolding on_sign_message
  on_sign_message-MovesRun msg peer =
      read-Always w (λ s. get_contract_in_state m as_accepted s msg.contract_id (some peer)) _ stay
        (λ a ef.
          verified_sign-MovesRun a msg.contract_id msg _ refl
            (found-stored m as_accepted accepted w.store _ _ a as_accepted-eq ef))

  pub initiate_accept_loan_contract_offer-MovesRun :
      (id : Bytes) (preimage : ℕ)
      → MovesRun w.store (initiate_accept_loan_contract_offer m id preimage w)
  unfolding initiate_accept_loan_contract_offer
  initiate_accept_loan_contract_offer-MovesRun id preimage =
      read-Always w (λ s. get_contract_in_state m as_offered_loan s id none) _ stay
        (λ loan _.
          unwrap_step-MovesRun (send_escrow_transaction m loan preimage) _
            (send_escrow_transaction-store loan preimage)
            (λ txid w' same.
              modify-Always w' (λ s. set_escrow_txid m.sled s id txid) _
                (modify-Always _ (λ s. set_loan_preimage m.sled s id preimage) _
                  (record {
                    after =
                        subst
                          (λ t. Moves m w.store (
                            set_loan_preimage m.sled (set_escrow_txid m.sled t id txid) id
                              preimage))
                          (sym same) (keep_secrets id txid preimage);
                  }))))

  pub accept_loan_contract_offer-MovesRun :
      (id : Bytes) → MovesRun w.store (accept_loan_contract_offer m id w)
  unfolding accept_loan_contract_offer
  accept_loan_contract_offer-MovesRun id =
      read-Always w (λ s. get_contract_in_state m as_offered_loan_escrow_confirmed s id none) _ stay
        (λ loan ef.
          read-Always w (λ s. unwrap_ok (get_escrow_txid m.sled s id)) _ stay
            (λ stored_txid _. lift-Always w (unwrap stored_txid) _ stay (λ txid _.
              read-Always w (λ s. unwrap_ok (get_loan_preimage m.sled s id)) _ stay
                (λ stored _. lift-Always w (unwrap stored) _ stay (λ preimage _.
                  let bytes = to_be_bytes 16 preimage in
                  lift-Always w (m.accept_loan_contract loan txid (m.bitcoin.sha256 bytes) bytes) _
                    stay
                    (λ accept ea.
                      let a = to_accepted_contract accept.0 in
                      import-Always w accept.0.dlc_transactions.funding_script_pubkey _ stay (
                        lift-Always _ (get_contract_id m.bitcoin a) _ stay (λ _ _.
                          update-Always _ (accepted a) _ stay (λ s es. record {
                            after =
                                advance (offered_loan_escrow_confirmed loan) (accepted a) id s
                                  (found-stored m as_offered_loan_escrow_confirmed
                                    offered_loan_escrow_confirmed w.store _ _ loan
                                    as_offered_loan_escrow_confirmed-eq ef)
                                  (accept_loan loan txid (m.bitcoin.sha256 bytes) bytes accept ea)
                                  es;
                          })))))))))

  pub on_initiate_accept_loan_message-MovesRun :
      (msg : InitiateAcceptLoanDlc) (peer : Bytes)
      → MovesRun w.store (on_initiate_accept_loan_message m msg peer w)
  unfolding on_initiate_accept_loan_message
  on_initiate_accept_loan_message-MovesRun msg peer = lift-Always w m.evm_key _ stay (λ _ _.
      read-Always w (λ s. get_contract_in_state m as_offered_loan s msg.contract_id (some peer)) _
        stay
        (λ loan _. lift-Always w m.evm_provider _ stay (λ _ _.
          lend-Always_end w msg.borrower_hash loan.offered_contract.total_collateral stay stay)))
