-- ===== src/Manager/Moves/Periodic.antt =====
-- The moves of the periodic checks, each on a contract that the store holds.
use p2p_btc_lending.Prelude.{
  ℕ, ◌≡◌, refl, sym, subst, ap, if◌then◌else◌, Bool-cases, inl, inr, leb, ltb, ◌==◌, List, Option,
  some, none, Result, ok,
}
use p2p_btc_lending.Prelude.Int.{ℤ}
use p2p_btc_lending.Dlc.Types.{Bytes, Transaction}
use p2p_btc_lending.Messages.{OracleAttestation}
use p2p_btc_lending.Contract.Types.{
  Error, ContractInfo, AdaptorInfo, OfferedLoanContract, SignedContract, PreClosedContract,
  Contract, offered_loan, offered_loan_escrow_confirmed, signed, confirmed, pre_closed, refunded,
}
use p2p_btc_lending.Contract.Ids.{get_contract_id}
use p2p_btc_lending.Contract.Pnl.{compute_pnl}
use p2p_btc_lending.Storage.{Store, get_contract, update_contract}
use p2p_btc_lending.Manager.World.{Manager, World, Step, ◌>>=◌, update, lift}
use p2p_btc_lending.Manager.Runs.{WhenOk, lift-WhenOk, Always, lift-Always}
use p2p_btc_lending.Manager.Updates.{broadcast-WhenOk}
use p2p_btc_lending.Manager.Changes.{
  broadcast-Always, update-Always_end, broadcast-Always_end, bind-Always,
}
use p2p_btc_lending.Manager.Closing.{
  pre_closed_by, closed_with, closed_by, close_contract, check_preclosed_contract,
  check_signed_contract, send_refund, check_refund,
}
use p2p_btc_lending.Manager.Checks.{
  close_with, check_confirmed_contract, get_closable_contract_info, seconds, check_escrow,
}
use p2p_btc_lending.Manager.Checks.Escrow.{check_escrow_confirms}
use p2p_btc_lending.Manager.Moves.{
  Ending, own, Transition, confirm_escrow, confirm, pre_close, close_confirmed, close_pre_closed,
  refund, Moves, stay, advance, MovesRun,
}

pub ok-injective : (a b : Contract) → ◌≡◌ {A = Result Error Contract} (ok a) (ok b) → a ≡ b
ok-injective a b h = cc h

module _ (m : Manager) (w : World m) where
  abbrev pub Stored : Contract → Type 0
  Stored c = (id : Bytes) × (get_contract m.sled m.codecs w.store id ≡ ok (some c))

  pub check_escrow-Moves :
      (c : OfferedLoanContract)
      → Stored (offered_loan c)
      → Moves m w.store (check_escrow m c w).0.store
  check_escrow-Moves c (id, stored) = elim (check_escrow_confirms m c w) [
    | inl same ↦ subst (Moves m w.store) (sym same) stay
    | inr e ↦
        advance (offered_loan c) (offered_loan_escrow_confirmed c) id _ stored (confirm_escrow c)
          e.stored
  ]

  pub check_signed_contract-MovesRun :
      (c : SignedContract) → Stored (signed c) → MovesRun w.store (check_signed_contract m c w)
  unfolding check_signed_contract
  check_signed_contract-MovesRun c (id, stored) =
      lift-Always w
        (m.get_transaction_confirmations
          (m.bitcoin.compute_txid c.accepted_contract.dlc_transactions.fund))
        _ stay
        (λ n en. elim (Bool-cases (leb 6 n)) [
          | inl e ↦ rw e (
              update-Always_end w (confirmed c) stay
                (λ s es. advance (signed c) (confirmed c) id s stored (confirm c n en e) es))
          | inr e ↦ rw e (record { after = stay })
        ])

  -- What closing a contract by a transaction returns, in the store as it was.
  pub data Ends (c : SignedContract) (as' : Option (List OracleAttestation)) (tx : Transaction)
      : Contract → Type 0 where
    ends_pre_closed : Ends c as' tx (pre_closed_by m c as' tx)
    ends_closed :
        (pnl : ℤ) (id : Bytes)
        → compute_pnl c.accepted_contract tx ≡ ok pnl
        → get_contract_id m.bitcoin c.accepted_contract ≡ ok id
        → Ends c as' tx (closed_with c as' tx pnl id)

  pub advance-Ends :
      (c : SignedContract) (as' : Option (List OracleAttestation)) (tx : Transaction)
      (ended : Contract) (id : Bytes) (s : Store m.sled)
      → get_contract m.sled m.codecs w.store id ≡ ok (some (confirmed c))
      → Ending m c as' tx
      → Ends c as' tx ended
      → update_contract m.sled m.codecs m.bitcoin w.store ended ≡ ok s
      → Moves m w.store s
  advance-Ends c as' tx _ id s stored ending ends_pre_closed es =
      advance (confirmed c) _ id s stored (pre_close c as' tx ending) es
  advance-Ends c as' tx _ id s stored ending (ends_closed pnl i ep ei) es =
      advance (confirmed c) _ id s stored (close_confirmed c as' tx pnl i ending ep ei) es

  pub closed_by-store :
      (c : SignedContract) (as' : Option (List OracleAttestation)) (tx : Transaction)
      → Always (λ w'. w'.store ≡ w.store) (closed_by m c as' tx w)
  unfolding closed_by
  closed_by-store c as' tx = lift-Always w (compute_pnl c.accepted_contract tx) _ refl (λ _ _.
      lift-Always w (get_contract_id m.bitcoin c.accepted_contract) _ refl
        (λ _ _. record { after = refl }))

  pub closed_by-WhenOk :
      (c : SignedContract) (as' : Option (List OracleAttestation)) (tx : Transaction)
      → WhenOk
          (λ w' ended.
            (pnl : ℤ) × ((id : Bytes) × (compute_pnl c.accepted_contract tx ≡ ok pnl)
              × (get_contract_id m.bitcoin c.accepted_contract ≡ ok id)
              × (ended ≡ closed_with c as' tx pnl id)))
          (closed_by m c as' tx w)
  unfolding closed_by
  closed_by-WhenOk c as' tx = lift-WhenOk w (compute_pnl c.accepted_contract tx) _ (λ pnl ep.
      lift-WhenOk w (get_contract_id m.bitcoin c.accepted_contract) _
        (λ id ei. record { holds = λ ended k. (pnl, (id, ep, ei, sym (ok-injective _ _ k))) }))

  pub closed_by-Ends :
      (c : SignedContract) (as' : Option (List OracleAttestation)) (tx : Transaction)
      (ended : Contract)
      → (closed_by m c as' tx w).1 ≡ ok ended
      → Ends c as' tx ended
  closed_by-Ends c as' tx ended k =
      let (pnl, (id, ep, ei, ex)) = (closed_by-WhenOk c as' tx).holds ended k in
      subst (Ends c as' tx) (sym ex) (ends_closed pnl id ep ei)

  close_contract-store :
      (c : SignedContract) (cet : Transaction) (as' : List OracleAttestation)
      → Always (λ w'. w'.store ≡ w.store) (close_contract m c cet as' w)
  unfolding close_contract
  close_contract-store c cet as' =
      lift-Always w (m.get_transaction_confirmations (m.bitcoin.compute_txid cet)) _ refl (λ n _.
        elim (Bool-cases (ltb n 1)) [
          | inl e ↦ rw e (broadcast-Always w cet _ refl (record { after = refl }))
          | inr e ↦ elim (Bool-cases (ltb n 6)) [
            | inl f ↦ rw (e, f) (record { after = refl })
            | inr f ↦ rw (e, f) (closed_by-store c (some as') cet)
          ]
        ])

  close_contract-WhenOk :
      (c : SignedContract) (cet : Transaction) (as' : List OracleAttestation)
      → WhenOk (λ w' ended. Ends c (some as') cet ended) (close_contract m c cet as' w)
  unfolding close_contract
  close_contract-WhenOk c cet as' =
      lift-WhenOk w (m.get_transaction_confirmations (m.bitcoin.compute_txid cet)) _ (λ n _.
        elim (Bool-cases (ltb n 1)) [
          | inl e ↦ rw e (
              broadcast-WhenOk w cet _ (λ _. record {
                holds = λ a k. subst (Ends c (some as') cet) (ok-injective _ _ k) ends_pre_closed;
              }))
          | inr e ↦ elim (Bool-cases (ltb n 6)) [
            | inl f ↦
                rw (e, f)
                  (record {
                    holds =
                        λ a k. subst (Ends c (some as') cet) (ok-injective _ _ k) ends_pre_closed;
                  })
            | inr f ↦ rw (e, f) (record { holds = λ a k. closed_by-Ends c (some as') cet a k })
          ]
        ])

  send_refund-store : (c : SignedContract) → Always (λ w'. w'.store ≡ w.store) (send_refund m c w)
  unfolding send_refund
  send_refund-store c =
      lift-Always w (m.derive_contract_signer c.accepted_contract.offered_contract.keys_id) _ refl
        (λ signer _.
          lift-Always w (m.get_signed_refund c signer) _ refl
            (λ tx _. broadcast-Always_end w tx refl refl))

-- A call that keeps the store, then an update that moves a stored contract.
then_update-MovesRun :
    {A : Type 0} (m : Manager) (w : World m) (s : Step m A) (f : A → Contract)
    → Always (λ w'. w'.store ≡ w.store) (s w)
    → ((a : A) (w' : World m) (t : Store m.sled)
        → s w ≡ (w', ok a)
        → update_contract m.sled m.codecs m.bitcoin w.store (f a) ≡ ok t
        → Moves m w.store t)
    → MovesRun w.store ((s >>= λ a. update m (f a)) w)
then_update-MovesRun m w s f keeps h =
    bind-Always w s _ (record { after = subst (Moves m w.store) (sym keeps.after) stay })
      (λ a w' e.
        let same : w'.store ≡ w.store = subst (λ p. p.0.store ≡ w.store) e keeps.after in
        update-Always_end w' (f a) (subst (Moves m w.store) (sym same) stay) (λ t et.
          h a w' t e
            (subst (λ s. update_contract m.sled m.codecs m.bitcoin s (f a) ≡ ok t) same et)))

module _ (m : Manager) (w : World m) where
  check_refund-MovesRun :
      (c : SignedContract) → Stored m w (confirmed c) → MovesRun w.store (check_refund m c w)
  unfolding check_refund
  check_refund-MovesRun c (id, stored) =
      let r = c.accepted_contract.dlc_transactions.refund in
      elim (Bool-cases (leb r.lock_time m.unix_time_now)) [
        | inr e ↦ rw e (record { after = stay })
        | inl e ↦ rw e (
            lift-Always w (m.get_transaction_confirmations (m.bitcoin.compute_txid r)) _ stay
              (λ n _.
                then_update-MovesRun m w (if n == 0 then send_refund m c else lift (ok tt))
                  (λ _. refunded c)
                  (elim (Bool-cases (n == 0)) [
                    | inl f ↦ rw f (send_refund-store m w c)
                    | inr f ↦ rw f (record { after = refl })
                  ])
                  (λ _ _ t _ et. advance (confirmed c) (refunded c) id t stored (refund c e) et)))
      ]

  close_with-MovesRun :
      (c : SignedContract)
      (found : Option (ContractInfo × AdaptorInfo × List (ℕ × OracleAttestation)))
      → get_closable_contract_info m c ≡ found
      → Stored m w (confirmed c)
      → MovesRun w.store (close_with m c found w)
  unfolding close_with
  close_with-MovesRun c none ef stored = check_refund-MovesRun c stored
  close_with-MovesRun c (some x) ef (id, stored) =
      lift-Always w (m.derive_contract_signer c.accepted_contract.offered_contract.keys_id) _ stay
        (λ signer ed. lift-Always w (m.get_signed_cet c x.0 x.1 x.2 signer) _ stay (λ cet ec.
          then_update-MovesRun m w (close_contract m c cet (seconds x.2)) (λ ended. ended)
            (close_contract-store m w c cet (seconds x.2))
            (λ ended w' t e et.
              advance-Ends m w c (some (seconds x.2)) cet ended id t stored
                (own signer x cet ef ed ec)
                ((close_contract-WhenOk m w c cet (seconds x.2)).holds ended (ap (λ p. p.1) e))
                et)))

  pub check_confirmed_contract-MovesRun :
      (c : SignedContract)
      → Stored m w (confirmed c)
      → MovesRun w.store (check_confirmed_contract m c w)
  unfolding check_confirmed_contract
  check_confirmed_contract-MovesRun c stored =
      close_with-MovesRun c (get_closable_contract_info m c) refl stored

  pub check_preclosed_contract-MovesRun :
      (p : PreClosedContract)
      → Stored m w (pre_closed p)
      → MovesRun w.store (check_preclosed_contract m p w)
  unfolding check_preclosed_contract
  check_preclosed_contract-MovesRun p (id, stored) =
      lift-Always w (m.get_transaction_confirmations (m.bitcoin.compute_txid p.signed_cet)) _ stay
        (λ n _. elim (Bool-cases (leb 6 n)) [
          | inr e ↦ rw e (record { after = stay })
          | inl e ↦ rw e (
              lift-Always w (get_contract_id m.bitcoin p.signed_contract.accepted_contract) _ stay
                (λ _ _.
                  then_update-MovesRun m w
                    (closed_by m p.signed_contract p.attestations p.signed_cet) (λ ended. ended)
                    (closed_by-store m w p.signed_contract p.attestations p.signed_cet)
                    (λ ended w' t e et.
                      let (pnl, (i, ep, ei, ex)) =
                        (closed_by-WhenOk m w p.signed_contract p.attestations p.signed_cet).holds
                          ended (ap (λ p. p.1) e) in
                      advance (pre_closed p) ended id t stored
                        (subst (Transition m (pre_closed p)) (sym ex)
                          (close_pre_closed p pnl i ep ei))
                        et)))
        ])
