-- ===== src/Manager/Moves/CounterParty.antt =====
-- The moves when the counter party closes a contract.
use p2p_btc_lending.Prelude.{
  ℕ, ◌≡◌, refl, sym, subst, ap, Bool, true, false, Bool-cases, inl, inr, ltb, bytes_eq, List, [],
  ◌∷◌, some, none, Result, ok, err, panic, ensure, ensure-ok, map_err, map_err-eq-ok,
}
use p2p_btc_lending.Dlc.Types.{Bytes, OutPoint, TxIn, Transaction, DlcTransactions}
use p2p_btc_lending.Dlc.Funding.{get_fund_outpoint}
use p2p_btc_lending.Contract.Types.{
  Error, dlc_error, invalid_parameters, SignedContract, Contract, confirmed, refunded,
}
use p2p_btc_lending.Storage.{update_contract, get_contract}
use p2p_btc_lending.Manager.World.{Manager, World, Step, ◌>>=◌, ◌>>◌, continue, lift, update}
use p2p_btc_lending.Manager.Runs.{Always, lift-Always}
use p2p_btc_lending.Manager.Changes.{update-Always, bind-Always}
use p2p_btc_lending.Manager.Closing.{
  pre_closed_by, closed_by, spends, spends_fund, on_counterparty_close,
}
use p2p_btc_lending.Manager.Moves.{
  Ending, counter_party, counter_refund, Moves, stay, advance, MovesRun,
}
use p2p_btc_lending.Manager.Moves.Periodic.{
  ok-injective, Stored, Ends, ends_pre_closed, closed_by-store, closed_by-Ends, advance-Ends,
}

module _ (m : Manager) (w : World m) (txs : DlcTransactions) (inputs : List TxIn) where
  -- One of the inputs spends the funding output.
  abbrev Spent : Type 0
  Spent =
      (fund : OutPoint) × (get_fund_outpoint m.bitcoin txs ≡ ok fund)
      × (spends m fund inputs ≡ true)

module _ (m : Manager) (w : World m) (txs : DlcTransactions) {B : Type 0} (f : Bool → Step m B)
    {Q : World m → Type 0} (q : Q w) where
  compared-Always :
      (inputs : List TxIn) (r : Result Error OutPoint)
      → map_err dlc_error (get_fund_outpoint m.bitcoin txs) ≡ r
      → ((spent : Bool) → (spent ≡ true → Spent m w txs inputs) → Always Q (f spent w))
      → Always Q (continue f (continue (λ fund. lift (ok (spends m fund inputs))) (w, r)))
  compared-Always inputs (ok fund) e h =
      h (spends m fund inputs) (λ t. (fund, map_err-eq-ok dlc_error _ e, t))
  compared-Always inputs (err x) e h = record { after = q }
  compared-Always inputs panic e h = record { after = q }

  spends_fund-Always :
      (inputs : List TxIn)
      → ((spent : Bool) → (spent ≡ true → Spent m w txs inputs) → Always Q (f spent w))
      → Always Q ((spends_fund m txs inputs >>= f) w)
  unfolding spends_fund ◌>>=◌
  spends_fund-Always [] h = h false (λ t. absurd (cc t))
  spends_fund-Always (i ∷ is) h = compared-Always (i ∷ is) _ refl h

module _ (m : Manager) (w : World m) (c : SignedContract) (tx : Transaction) where
  stored-MovesRun :
      (w' : World m) (ended : Contract) (id : Bytes)
      → w'.store ≡ w.store
      → get_contract m.sled m.codecs w.store id ≡ ok (some (confirmed c))
      → Ending m c none tx
      → Ends m w c none tx ended
      → MovesRun w.store ((update m ended >> lift (ok ended)) w')
  stored-MovesRun w' ended id same stored ending ends =
      update-Always w' ended _ (subst (Moves m w.store) (sym same) stay) (λ s es. record {
        after =
            advance-Ends m w c none tx ended id s stored ending ends
              (subst (λ t. update_contract m.sled m.codecs m.bitcoin t ended ≡ ok s) same es);
      })

  pub on_counterparty_close-MovesRun :
      (n : ℕ) → Stored m w (confirmed c) → MovesRun w.store (on_counterparty_close m c tx n w)
  unfolding on_counterparty_close
  on_counterparty_close-MovesRun n (id, stored) =
      let txs = c.accepted_contract.dlc_transactions in
      spends_fund-Always m w txs _ stay tx.input (λ spent found.
        lift-Always w (ensure spent invalid_parameters) _ stay (λ _ checked.
          let (fund, ef, es) = found (ensure-ok _ _ checked) in
          let ending = counter_party fund tx ef es in
          elim (Bool-cases
            (bytes_eq (m.bitcoin.compute_txid txs.refund) (m.bitcoin.compute_txid tx))) [
              | inl e ↦ rw e (
                  update-Always w (refunded c) _ stay (λ s eu. record {
                    after =
                        advance (confirmed c) (refunded c) id s stored (counter_refund c tx e) eu;
                  }))
              | inr e ↦ elim (Bool-cases (ltb n 6)) [
                | inl f ↦
                    rw (e, f)
                      (lift-Always w (ok (pre_closed_by m c none tx)) _ stay (λ ended k.
                        stored-MovesRun w ended id refl stored ending
                          (subst (λ r. Ends m w c none tx r) (ok-injective _ _ k) ends_pre_closed)))
                | inr f ↦
                    rw (e, f)
                      (let keeps = closed_by-store m w c none tx in
                        bind-Always w (closed_by m c none tx) _
                          (record { after = subst (Moves m w.store) (sym keeps.after) stay })
                          (λ ended w' run.
                            stored-MovesRun w' ended id
                              (subst (λ p. p.0.store ≡ w.store) run keeps.after) stored ending
                              (closed_by-Ends m w c none tx ended (ap (λ p. p.1) run))))
              ]
            ]))
