-- ===== src/Manager/Loans/Accepting.antt =====
-- What an accepted loan changes on the lender's side.
use p2p_btc_lending.Prelude.{ℕ, ◌≡◌, refl, subst, List, ◌∷◌, some, Result, ok, err, panic}
use p2p_btc_lending.Dlc.Types.{Bytes, TxIn, Transaction}
use p2p_btc_lending.Dlc.Loan.{to_be_bytes}
use p2p_btc_lending.Messages.{AcceptDlc, AcceptLoanDlc, SignDlc, to_accept_dlc}
use p2p_btc_lending.Contract.Types.{
  Error, OfferedContract, OfferedLoanContract, SignedContract, signed, failed_accept,
}
use p2p_btc_lending.Storage.{Store, update_contract}
use p2p_btc_lending.Manager.World.{Manager, World, unwrap_ok}
use p2p_btc_lending.Manager.Runs.{WhenOk, lift-WhenOk, read-WhenOk}
use p2p_btc_lending.Manager.Updates.{broadcast-WhenOk, import-WhenOk, update-WhenOk}
use p2p_btc_lending.Manager.Lookup.{get_contract_in_state, as_offered_loan}
use p2p_btc_lending.Manager.Loans.{
  sign_witness, verified_accept, accept_fail_on_error, on_accept_loan_message,
}

-- The collateral transaction that the lender sends: the borrower's, with the lender's signature and
-- the preimage that the lending contract holds.
pub record IsSpend (m : Manager) (msg : AcceptLoanDlc) (offer : OfferedLoanContract)
    (tx : Transaction) : Type 0 where
  pub signer : Bytes
  pub derived : m.derive_contract_signer offer.offered_contract.keys_id ≡ ok signer
  pub collateral_amount : ℕ
  pub preimage : ℕ
  pub on_chain : m.stable_loans msg.borrower_hash ≡ ok (collateral_amount, preimage)
  pub signature : Bytes
  pub signs :
      m.get_sig_for_tx_input msg.signed_escrow_spend_tx 0 msg.escrow_spk msg.escrow_amount signer
      ≡ ok signature
  pub inputs : List TxIn
  pub witness :
      sign_witness signature (to_be_bytes 16 preimage) msg.signed_escrow_spend_tx.input ≡ ok inputs
  pub spend : tx ≡ record msg.signed_escrow_spend_tx { input = inputs }

-- What the lender has done when it answers an accept message.
pub record Accepted (m : Manager) (msg : AcceptLoanDlc) (peer : Bytes) (w w' : World m)
    (answer : SignDlc) : Type 0 where
  pub offer : OfferedLoanContract
  pub found :
      get_contract_in_state m as_offered_loan w.store msg.temporary_contract_id (some peer)
      ≡ ok offer
  pub tx : Transaction
  pub is_spend : IsSpend m msg offer tx
  pub contract : SignedContract
  pub verified :
      m.verify_accepted_and_sign_loan_contract offer.offered_contract
        (to_accept_dlc msg)
        tx
        msg.collateral_spk
      ≡ ok (contract, answer)
  pub sent : w'.sent ≡ tx ∷ w.sent
  pub stored : update_contract m.sled m.codecs m.bitcoin w.store (signed contract) ≡ ok w'.store

pub unwrap_ok-eq : {A : Type 0} (r : Result Error A) {a : A} → unwrap_ok r ≡ ok a → r ≡ ok a
unwrap_ok-eq (ok a) h = h
unwrap_ok-eq (err e) h = absurd (cc h)
unwrap_ok-eq panic h = absurd (cc h)

fail-WhenOk :
    {A : Type 0} (m : Manager) (P : World m → A → Type 0) (w : World m) (offer : OfferedContract)
    (msg : AcceptDlc) (e : Error)
    → WhenOk P (accept_fail_on_error m {A = A} offer msg e w)
unfolding accept_fail_on_error
fail-WhenOk m P w offer msg e =
    update-WhenOk w
      (failed_accept
        (record { offered_contract = offer; accept_message = msg; error_message = m.to_string e }))
      _ (λ _ _. record { holds = λ _ k. absurd (cc k) })

verified_accept-WhenOk :
    (m : Manager) (P : World m → SignDlc → Type 0) (w : World m) (offer : OfferedContract)
    (msg : AcceptDlc) (r : Result Error (SignedContract × SignDlc))
    → ((c : SignedContract × SignDlc) (s : Store m.sled)
        → r ≡ ok c
        → update_contract m.sled m.codecs m.bitcoin w.store (signed c.0) ≡ ok s
        → P
            (record w {
              store = s;
              imported = c.0.accepted_contract.dlc_transactions.funding_script_pubkey ∷ w.imported;
            })
            c.1)
    → WhenOk P (verified_accept m offer msg r w)
unfolding verified_accept
verified_accept-WhenOk m P w offer msg (ok c) h =
    import-WhenOk w c.0.accepted_contract.dlc_transactions.funding_script_pubkey _ (λ _.
      update-WhenOk _ (signed c.0) _
        (λ s es. record { holds = λ a k. subst (P _) (cc k) (h c s refl es) }))
verified_accept-WhenOk m P w offer msg (err e) h = fail-WhenOk m P w offer msg e
verified_accept-WhenOk m P w offer msg panic h = record { holds = λ _ k. absurd (cc k) }

module _ (m : Manager) (w : World m) (msg : AcceptLoanDlc) (peer : Bytes) where
  on_accept_loan_message-WhenOk :
      WhenOk (Accepted m msg peer w) (on_accept_loan_message m msg peer w)
  unfolding on_accept_loan_message
  on_accept_loan_message-WhenOk =
      read-WhenOk w
        (λ s. get_contract_in_state m as_offered_loan s msg.temporary_contract_id (some peer)) _
        (λ loan ef.
          lift-WhenOk w (m.derive_contract_signer loan.offered_contract.keys_id) _ (λ signer ed.
            lift-WhenOk w m.evm_provider _ (λ _ _.
              lift-WhenOk w (unwrap_ok (m.stable_loans msg.borrower_hash)) _ (λ recorded er.
                lift-WhenOk w
                  (unwrap_ok (
                    m.get_sig_for_tx_input msg.signed_escrow_spend_tx 0 msg.escrow_spk
                      msg.escrow_amount signer))
                  _
                  (λ signature es.
                    lift-WhenOk w
                      (sign_witness signature (to_be_bytes 16 recorded.1)
                        msg.signed_escrow_spend_tx.input)
                      _
                      (λ inputs ei.
                        broadcast-WhenOk w (record msg.signed_escrow_spend_tx { input = inputs }) _
                          (λ _.
                            verified_accept-WhenOk m (Accepted m msg peer w) _ loan.offered_contract
                              (to_accept_dlc msg)
                              (m.verify_accepted_and_sign_loan_contract loan.offered_contract
                                (to_accept_dlc msg)
                                (record msg.signed_escrow_spend_tx { input = inputs })
                                msg.collateral_spk)
                              (λ c s ev eu. record {
                                offer = loan;
                                found = ef;
                                tx = record msg.signed_escrow_spend_tx { input = inputs };
                                is_spend = record {
                                  signer = signer;
                                  derived = ed;
                                  collateral_amount = recorded.0;
                                  preimage = recorded.1;
                                  on_chain = unwrap_ok-eq _ er;
                                  signature = signature;
                                  signs = unwrap_ok-eq _ es;
                                  inputs = inputs;
                                  witness = ei;
                                  spend = refl;
                                };
                                contract = c.0;
                                verified = ev;
                                sent = refl;
                                stored = eu;
                              }))))))))

  -- The lender answers an accept message only for a loan that is on offer to the message's peer; then
  -- it has sent one transaction, the borrower's with its own signature and the preimage from the
  -- lending contract, the contract was verified against this transaction, and is stored as signed.
  pub on_accept_loan_message-ok :
      (answer : SignDlc)
      → (on_accept_loan_message m msg peer w).1 ≡ ok answer
      → Accepted m msg peer w (on_accept_loan_message m msg peer w).0 answer
  on_accept_loan_message-ok answer h = on_accept_loan_message-WhenOk.holds answer h
