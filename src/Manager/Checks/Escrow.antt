-- ===== src/Manager/Checks/Escrow.antt =====
-- When the check of an offered loan takes its escrow for confirmed.
use p2p_btc_lending.Prelude.{
  ℕ, ◌≡◌, ◌≤◌, ◌<◌, refl, ◌&&◌, subst, ap, ◌∙◌, Bool-cases, ◌⊎◌, inl, inr, ◌∷◌, Option, some, none,
  unwrap, ok, ltb, leb, leb→le, ltb→lt, lt→ltb, if◌then◌else◌,
}
use p2p_btc_lending.Dlc.Types.{Bytes}
use p2p_btc_lending.Dlc.Loan.{to_be_bytes}
use p2p_btc_lending.Contract.Types.{Error, OfferedLoanContract, offered_loan_escrow_confirmed}
use p2p_btc_lending.Storage.{update_contract, get_escrow_txid, get_loan_preimage}
use p2p_btc_lending.Manager.World.{Manager, World, claim_call, update, lift}
use p2p_btc_lending.Manager.Changes.{claim-Always, update-Always_end}
use p2p_btc_lending.Manager.Runs.{Always, lift-Always, read-Always}
use p2p_btc_lending.Manager.Checks.{check_escrow, check_escrow_of}

-- A loan whose escrow was taken for confirmed.
pub record EscrowConfirmed (m : Manager) (c : OfferedLoanContract) (w w' : World m) : Type 0 where
  pub escrow_txid : Bytes
  pub known : get_escrow_txid m.sled w.store c.offered_contract.id ≡ ok (some escrow_txid)
  pub preimage : ℕ
  pub held : get_loan_preimage m.sled w.store c.offered_contract.id ≡ ok (some preimage)
  pub loan : ℕ × ℕ
  pub recorded_loan : m.stable_loans (m.bitcoin.sha256 (to_be_bytes 16 preimage)) ≡ ok loan
  pub lent : 0 < loan.0
  pub confirmations : ℕ
  pub counted : m.get_transaction_confirmations escrow_txid ≡ ok confirmations
  pub enough : 6 ≤ confirmations
  pub claimed : w'.evm_calls ≡ claim_call preimage ∷ w.evm_calls
  pub stored :
      update_contract m.sled m.codecs m.bitcoin w.store (offered_loan_escrow_confirmed c)
      ≡ ok w'.store

abbrev pub Checked : (m : Manager) → OfferedLoanContract → World m → World m → Type 0
Checked m c w w' = (w'.store ≡ w.store) ⊎ EscrowConfirmed m c w w'

unwrap-some : {A : Type 0} (o : Option A) {a : A} → unwrap {E = Error} o ≡ ok a → o ≡ some a
unwrap-some none h = absurd (cc h)
unwrap-some (some a) h = cc h

module _ (m : Manager) (c : OfferedLoanContract) (w : World m) where
  -- The end of the pass, in a world whose store is as at its start.
  confirm-Always :
      (w' : World m) (txid : Bytes) (preimage n : ℕ) (loan : ℕ × ℕ)
      → w'.store ≡ w.store
      → get_escrow_txid m.sled w.store c.offered_contract.id ≡ ok (some txid)
      → get_loan_preimage m.sled w.store c.offered_contract.id ≡ ok (some preimage)
      → m.stable_loans (m.bitcoin.sha256 (to_be_bytes 16 preimage)) ≡ ok loan
      → m.get_transaction_confirmations txid ≡ ok n
      → (0 < loan.0 → w'.evm_calls ≡ claim_call preimage ∷ w.evm_calls)
      → Always (Checked m c w) (
          (if leb 6 n && ltb 0 loan.0
              then update m (offered_loan_escrow_confirmed c)
              else lift (ok tt))
            w')
  confirm-Always w' txid preimage n loan same et ep el en claims = elim (Bool-cases (leb 6 n)) [
    | inr e ↦ rw e (record { after = inl same })
    | inl e ↦ elim (Bool-cases (ltb 0 loan.0)) [
      | inr f ↦ rw (e, f) (record { after = inl same })
      | inl f ↦
          rw (e, f)
            (update-Always_end w' _ (inl same) (λ s es. inr (record {
              escrow_txid = txid;
              known = et;
              preimage = preimage;
              held = ep;
              loan = loan;
              recorded_loan = el;
              lent = ltb→lt _ _ f;
              confirmations = n;
              counted = en;
              enough = leb→le _ _ e;
              claimed = claims (ltb→lt _ _ f);
              stored =
                  subst
                    (λ t.
                      update_contract m.sled m.codecs m.bitcoin t (offered_loan_escrow_confirmed c)
                      ≡ ok s)
                    same es;
            })))
    ]
  ]

  check_escrow_of-Always :
      (found : Option Bytes)
      → get_escrow_txid m.sled w.store c.offered_contract.id ≡ ok found
      → Always (Checked m c w) (check_escrow_of m c found w)
  unfolding check_escrow_of
  check_escrow_of-Always none ef = record { after = inl refl }
  check_escrow_of-Always (some txid) ef =
      read-Always w (λ s. get_loan_preimage m.sled s c.offered_contract.id) _ (inl refl)
        (λ stored es. lift-Always w (unwrap stored) _ (inl refl) (λ preimage ep.
          let held = es ∙ ap ok (unwrap-some stored ep) in
          lift-Always w m.evm_provider _ (inl refl) (λ _ _.
            lift-Always w (m.stable_loans (m.bitcoin.sha256 (to_be_bytes 16 preimage))) _ (inl refl)
              (λ loan el. elim (Bool-cases (ltb 0 loan.0)) [
                | inl f ↦ rw f (
                    claim-Always w preimage _ (inl refl) (inl refl) (
                      lift-Always _ (m.get_transaction_confirmations txid) _ (inl refl) (λ n en.
                        (rw f at (
                          confirm-Always
                            (record w { evm_calls = claim_call preimage ∷ w.evm_calls }) txid
                            preimage n loan refl ef held el en (λ _. refl))))))
                | inr f ↦ rw f (
                    lift-Always w (ok tt) _ (inl refl) (λ _ _.
                      lift-Always w (m.get_transaction_confirmations txid) _ (inl refl) (λ n en.
                        (rw f at (
                          confirm-Always w txid preimage n loan refl ef held el en
                            (λ l. absurd (cc (lt→ltb _ _ l, f))))))))
              ]))))

  check_escrow-Always : Always (Checked m c w) (check_escrow m c w)
  unfolding check_escrow
  check_escrow-Always =
      read-Always w (λ s. get_escrow_txid m.sled s c.offered_contract.id) _ (inl refl)
        (λ found ef. check_escrow_of-Always found ef)

-- A pass over an offered loan either leaves the store as it was, or the loan becomes confirmed; then
-- its escrow's id and preimage were stored, the lending contract held a loan for the preimage's hash
-- and the preimage was claimed with it once, and the escrow had at least six confirmations.
pub check_escrow_confirms :
    (m : Manager) (c : OfferedLoanContract) (w : World m) → Checked m c w (check_escrow m c w).0
check_escrow_confirms m c w = (check_escrow-Always m c w).after
