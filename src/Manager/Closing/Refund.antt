-- ===== src/Manager/Closing/Refund.antt =====
-- When a contract is refunded.
use p2p_btc_lending.Prelude.{
  ℕ, ◌==◌, ◌≤◌, ◌<◌, ◌≡◌, refl, subst, ap, ◌∷◌, ◌⊎◌, inl, inr, Bool-cases, true, false, leb, leb→le,
  ok, arith,
}
use p2p_btc_lending.Dlc.Types.{Bytes, Transaction}
use p2p_btc_lending.Contract.Types.{SignedContract, refunded}
use p2p_btc_lending.Storage.{Store, update_contract}
use p2p_btc_lending.Manager.World.{Manager, World}
use p2p_btc_lending.Manager.Runs.{Always, lift-Always, WhenOk, lift-WhenOk, bind-WhenOk}
use p2p_btc_lending.Manager.Updates.{broadcast-WhenOk_end, update-WhenOk_end}
use p2p_btc_lending.Manager.Changes.{broadcast-Always_end, bind-Always, update-Always_end}
use p2p_btc_lending.Manager.Closing.{send_refund, check_refund}

-- The refund that was signed and sent.
pub record RefundSent (m : Manager) (c : SignedContract) (w w' : World m) : Type 0 where
  pub signer : Bytes
  pub derived : m.derive_contract_signer c.accepted_contract.offered_contract.keys_id ≡ ok signer
  pub tx : Transaction
  pub signs : m.get_signed_refund c signer ≡ ok tx
  pub sent : w'.sent ≡ tx ∷ w.sent

-- A contract that was stored as refunded.
pub record Refunds (m : Manager) (c : SignedContract) (w w' : World m) : Type 0 where
  pub late : c.accepted_contract.dlc_transactions.refund.lock_time ≤ m.unix_time_now
  pub confirmations : ℕ
  pub counted :
      m.get_transaction_confirmations
        (m.bitcoin.compute_txid c.accepted_contract.dlc_transactions.refund)
      ≡ ok confirmations
  pub on_chain :
      ((0 < confirmations) × (w'.sent ≡ w.sent)) ⊎ ((confirmations ≡ 0) × RefundSent m c w w')
  pub stored : update_contract m.sled m.codecs m.bitcoin w.store (refunded c) ≡ ok w'.store

-- Nothing happens before the lock time.
abbrev pub Early : (m : Manager) → SignedContract → World m → World m → Type 0
Early m c w w' =
    (m.unix_time_now < c.accepted_contract.dlc_transactions.refund.lock_time) × (w' ≡ w)

is_early : (l now : ℕ) → leb l now ≡ false → now < l
is_early l now h = ground arith

is_zero : (n : ℕ) → (n == 0) ≡ true → n ≡ 0
is_zero n h = ground arith

is_positive : (n : ℕ) → (n == 0) ≡ false → 0 < n
is_positive n h = ground arith

module _ (m : Manager) (c : SignedContract) (w : World m) where
  send_refund-WhenOk :
      WhenOk (λ w' _. (w'.store ≡ w.store) × RefundSent m c w w') (send_refund m c w)
  unfolding send_refund
  send_refund-WhenOk =
      lift-WhenOk w (m.derive_contract_signer c.accepted_contract.offered_contract.keys_id) _
        (λ signer ed. lift-WhenOk w (m.get_signed_refund c signer) _ (λ tx es.
          broadcast-WhenOk_end w tx
            (refl, record { signer = signer; derived = ed; tx = tx; signs = es; sent = refl })))

  pub send_refund-store : Always (λ w'. w'.store ≡ w.store) (send_refund m c w)
  unfolding send_refund
  send_refund-store =
      lift-Always w (m.derive_contract_signer c.accepted_contract.offered_contract.keys_id) _ refl
        (λ signer _.
          lift-Always w (m.get_signed_refund c signer) _ refl
            (λ tx _. broadcast-Always_end w tx refl refl))

  sent_by :
      (w' : World m) (u : Unit {0})
      → send_refund m c w ≡ (w', ok u)
      → (w'.store ≡ w.store) × RefundSent m c w w'
  sent_by w' u run =
      subst (λ p. (p.0.store ≡ w.store) × RefundSent m c w p.0) run
        (send_refund-WhenOk.holds u (ap (λ p. p.1) run))

  -- The facts after the refund is on its way, and the contract is stored.
  stored-Refunds :
      (n : ℕ) (w' : World m) (s : Store m.sled)
      → leb c.accepted_contract.dlc_transactions.refund.lock_time m.unix_time_now ≡ true
      → m.get_transaction_confirmations
          (m.bitcoin.compute_txid c.accepted_contract.dlc_transactions.refund)
        ≡ ok n
      → (w'.store ≡ w.store)
      → ((0 < n) × (w'.sent ≡ w.sent)) ⊎ ((n ≡ 0) × RefundSent m c w w')
      → update_contract m.sled m.codecs m.bitcoin w'.store (refunded c) ≡ ok s
      → Refunds m c w (record w' { store = s })
  stored-Refunds n w' s late counted same sent es = record {
    late = leb→le _ _ late;
    confirmations = n;
    counted = counted;
    on_chain = elim sent [
      | inl (p, e) ↦ inl (p, e)
      | inr (z, r) ↦ inr (
        z,
        record {
          signer = r.signer;
          derived = r.derived;
          tx = r.tx;
          signs = r.signs;
          sent = r.sent;
        },
      )
    ];
    stored = subst (λ t. update_contract m.sled m.codecs m.bitcoin t (refunded c) ≡ ok s) same es;
  }

  check_refund-Always : Always (λ w'. (w'.store ≡ w.store) ⊎ Refunds m c w w') (check_refund m c w)
  unfolding check_refund
  check_refund-Always =
      let r = c.accepted_contract.dlc_transactions.refund in
      elim (Bool-cases (leb r.lock_time m.unix_time_now)) [
        | inr e ↦ rw e (record { after = inl refl })
        | inl e ↦ rw e (
            lift-Always w (m.get_transaction_confirmations (m.bitcoin.compute_txid r)) _ (inl refl)
              (λ n en. elim (Bool-cases (n == 0)) [
                | inl z ↦ rw z (
                    bind-Always w (send_refund m c) _
                      (record { after = inl send_refund-store.after })
                      (λ u w' run.
                        let (same, sent) = sent_by w' u run in
                        update-Always_end w' (refunded c) (inl same) (λ s es.
                          inr (stored-Refunds n w' s e en same (inr (is_zero n z, sent)) es))))
                | inr z ↦ rw z (
                    lift-Always w (ok tt) _ (inl refl) (λ _ _.
                      update-Always_end w (refunded c) (inl refl) (λ s es.
                        inr (stored-Refunds n w s e en refl (inl (is_positive n z, refl)) es))))
              ]))
      ]

  check_refund-WhenOk : WhenOk (λ w' _. Early m c w w' ⊎ Refunds m c w w') (check_refund m c w)
  unfolding check_refund
  check_refund-WhenOk =
      let r = c.accepted_contract.dlc_transactions.refund in
      elim (Bool-cases (leb r.lock_time m.unix_time_now)) [
        | inr e ↦ rw e (record { holds = λ _ _. inl (is_early _ _ e, refl) })
        | inl e ↦ rw e (
            lift-WhenOk w (m.get_transaction_confirmations (m.bitcoin.compute_txid r)) _ (λ n en.
              elim (Bool-cases (n == 0)) [
                | inl z ↦ rw z (
                    bind-WhenOk w (send_refund m c) _ (λ w' u run.
                      let (same, sent) = sent_by w' u run in
                      update-WhenOk_end w' (refunded c) (λ s es.
                        inr (stored-Refunds n w' s e en same (inr (is_zero n z, sent)) es))))
                | inr z ↦ rw z (
                    lift-WhenOk w (ok tt) _ (λ _ _. update-WhenOk_end w (refunded c) (λ s es.
                      inr (stored-Refunds n w s e en refl (inl (is_positive n z, refl)) es))))
              ]))
      ]

-- Whatever the calls return, the check for a refund leaves the store as it was, or the contract is
-- stored as refunded; then the refund's lock time has passed, and the refund has a confirmation or was
-- signed and sent. Where the check returns without an error, the contract is stored as refunded unless
-- the lock time has not come and nothing has changed.
pub check_refund-Refunds :
    (m : Manager) (c : SignedContract) (w : World m)
    → (((check_refund m c w).0.store ≡ w.store) ⊎ Refunds m c w (check_refund m c w).0)
      × ((check_refund m c w).1 ≡ ok tt
          → Early m c w (check_refund m c w).0 ⊎ Refunds m c w (check_refund m c w).0)
check_refund-Refunds m c w =
    ((check_refund-Always m c w).after, λ h. (check_refund-WhenOk m c w).holds tt h)
