-- ===== src/Manager/Loans/Spending.antt =====
-- What an accept message makes the lender send and store, whatever the handler returns.
use p2p_btc_lending.Prelude.{◌≡◌, refl, ◌⊎◌, inl, inr, ◌∷◌, some, Result, ok, err, panic}
use p2p_btc_lending.Dlc.Types.{Bytes, Transaction}
use p2p_btc_lending.Dlc.Loan.{to_be_bytes}
use p2p_btc_lending.Messages.{AcceptDlc, AcceptLoanDlc, SignDlc, to_accept_dlc}
use p2p_btc_lending.Contract.Types.{
  Error, OfferedLoanContract, SignedContract, Contract, signed, failed_accept,
}
use p2p_btc_lending.Storage.{update_contract}
use p2p_btc_lending.Manager.World.{Manager, World, unwrap_ok}
use p2p_btc_lending.Manager.Runs.{Always, lift-Always, read-Always}
use p2p_btc_lending.Manager.Changes.{broadcast-Always, import-Always, update-Always}
use p2p_btc_lending.Manager.Lookup.{get_contract_in_state, as_offered_loan}
use p2p_btc_lending.Manager.Loans.{
  sign_witness, verified_accept, accept_fail_on_error, on_accept_loan_message,
}
use p2p_btc_lending.Manager.Loans.Accepting.{IsSpend, unwrap_ok-eq}

-- The offer whose acceptance was refused.
abbrev pub refused_offer : Manager → OfferedLoanContract → AcceptDlc → Error → Contract
refused_offer m offer msg e = failed_accept (record {
  offered_contract = offer.offered_contract;
  accept_message = msg;
  error_message = m.to_string e;
})

module _ (m : Manager) (msg : AcceptDlc) (spk : Bytes) (offer : OfferedLoanContract)
    (tx : Transaction) (w w' : World m) where
  -- What the verification against the transaction makes of the store.
  abbrev pub Verdict : Type 0
  Verdict =
      (w'.store ≡ w.store)
      ⊎ (((c : SignedContract × SignDlc) × (m.verify_accepted_and_sign_loan_contract
                offer.offered_contract msg tx spk
              ≡ ok c)
            × (update_contract m.sled m.codecs m.bitcoin w.store (signed c.0) ≡ ok w'.store))
          ⊎ ((e : Error) × (m.verify_accepted_and_sign_loan_contract offer.offered_contract msg tx
                  spk
                ≡ err e)
              × (update_contract m.sled m.codecs m.bitcoin w.store (refused_offer m offer msg e)
                  ≡ ok w'.store)))

-- What the lender sent for an accept message, and what it stored after that.
pub record Spent (m : Manager) (msg : AcceptLoanDlc) (peer : Bytes) (w w' : World m) : Type 0 where
  pub offer : OfferedLoanContract
  pub found :
      get_contract_in_state m as_offered_loan w.store msg.temporary_contract_id (some peer)
      ≡ ok offer
  pub tx : Transaction
  pub is_spend : IsSpend m msg offer tx
  pub sent : w'.sent ≡ tx ∷ w.sent
  pub verdict : Verdict m (to_accept_dlc msg) msg.collateral_spk offer tx w w'

abbrev pub Untouched : (m : Manager) → World m → World m → Type 0
Untouched m w w' = (w'.sent ≡ w.sent) × (w'.store ≡ w.store)

module _ (m : Manager) (w : World m) where
  verified_accept-Verdict :
      (msg : AcceptDlc) (spk : Bytes) (offer : OfferedLoanContract) (tx : Transaction)
      (r : Result Error (SignedContract × SignDlc))
      → m.verify_accepted_and_sign_loan_contract offer.offered_contract msg tx spk ≡ r
      → Always
          (λ w'. (w'.sent ≡ tx ∷ w.sent) × Verdict m msg spk offer tx w w')
          (verified_accept m offer.offered_contract msg r (record w { sent = tx ∷ w.sent }))
  unfolding verified_accept accept_fail_on_error
  verified_accept-Verdict msg spk offer tx (ok c) ev =
      import-Always _ c.0.accepted_contract.dlc_transactions.funding_script_pubkey _
        (refl, inl refl)
        (update-Always _ (signed c.0) _ (refl, inl refl)
          (λ s es. record { after = (refl, inr (inl (c, ev, es))) }))
  verified_accept-Verdict msg spk offer tx (err e) ev =
      update-Always _ (refused_offer m offer msg e) _ (refl, inl refl)
        (λ s es. record { after = (refl, inr (inr (e, ev, es))) })
  verified_accept-Verdict msg spk offer tx panic ev = record { after = (refl, inl refl) }

  on_accept_loan_message-Always :
      (msg : AcceptLoanDlc) (peer : Bytes)
      → Always
          (λ w'. Untouched m w w' ⊎ Spent m msg peer w w')
          (on_accept_loan_message m msg peer w)
  unfolding on_accept_loan_message
  on_accept_loan_message-Always msg peer =
      let tx = msg.signed_escrow_spend_tx in
      read-Always w
        (λ s. get_contract_in_state m as_offered_loan s msg.temporary_contract_id (some peer)) _
        (inl (refl, refl))
        (λ loan ef.
          lift-Always w (m.derive_contract_signer loan.offered_contract.keys_id) _
            (inl (refl, refl))
            (λ signer ed. lift-Always w m.evm_provider _ (inl (refl, refl)) (λ _ _.
              lift-Always w (unwrap_ok (m.stable_loans msg.borrower_hash)) _ (inl (refl, refl))
                (λ recorded er.
                  lift-Always w
                    (unwrap_ok
                      (m.get_sig_for_tx_input tx 0 msg.escrow_spk msg.escrow_amount signer))
                    _ (inl (refl, refl))
                    (λ signature es.
                      lift-Always w (sign_witness signature (to_be_bytes 16 recorded.1) tx.input) _
                        (inl (refl, refl))
                        (λ inputs ei.
                          broadcast-Always w (record tx { input = inputs }) _ (inl (refl, refl))
                            (let spent = record tx { input = inputs } in
                              let (sent, verdict) =
                                (verified_accept-Verdict (to_accept_dlc msg) msg.collateral_spk loan
                                  spent _ refl).after in
                              record {
                                after = inr (record {
                                  offer = loan;
                                  found = ef;
                                  tx = spent;
                                  is_spend = record {
                                    signer = signer;
                                    derived = ed;
                                    collateral_amount = recorded.0;
                                    preimage = recorded.1;
                                    on_chain = unwrap_ok-eq _ er;
                                    signature = signature;
                                    signs = unwrap_ok-eq _ es;
                                    inputs = inputs;
                                    witness = ei;
                                    spend = refl;
                                  };
                                  sent = sent;
                                  verdict = verdict;
                                });
                              })))))))

  -- Whatever an accept message's handler returns: the lender has sent and stored nothing, or it has
  -- sent one transaction for a loan that is on offer to the message's peer, the borrower's with its own
  -- signature and the preimage from the lending contract; then the store is as it was, or the
  -- verification against this transaction succeeded and its contract is stored as signed, or it failed,
  -- and the offer is stored as failed with the error's text, although the transaction has been sent.
  pub on_accept_loan_message_spends :
      (msg : AcceptLoanDlc) (peer : Bytes)
      → Untouched m w (on_accept_loan_message m msg peer w).0
        ⊎ Spent m msg peer w (on_accept_loan_message m msg peer w).0
  on_accept_loan_message_spends msg peer = (on_accept_loan_message-Always msg peer).after
