-- ===== src/Dlc/Cets/Payouts.antt =====
-- What the contract execution transactions and the refund pay.
use p2p_btc_lending.Prelude.{
  ℕ, ◌+◌, ◌*◌, ◌≤◌, ◌<◌, ◌≡◌, refl, true, List, [], ◌∷◌, Option, arith, ltb, length, All, all, keep,
  sum_by, ok, err, OnOk, OnOk-ok, Bool-cases, inl, inr, ◌↔◌, ap, suc, ltb→lt, lt→ltb,
}
use p2p_btc_lending.Dlc.Types.{
  Bytes, OutPoint, TxOut, Transaction, Payout, PartyParams, invalid_argument,
}
use p2p_btc_lending.Dlc.Checked.{two_64, checked_add}
use p2p_btc_lending.Dlc.Util.{discard_dust}
use p2p_btc_lending.Dlc.Cets.{
  create_cet, create_cets, create_refund_transaction, has_proper_outcomes,
  create_cets_and_refund_tx, dust_limit, unsigned_input,
}

abbrev pub output_value : Transaction → ℕ
output_value tx = sum_by (λ o. o.value) tx.output

-- A transaction that spends one output and pays out `total`, but for two parts of dust at most.
pub record Pays (total : ℕ) (spent : OutPoint) (tx : Transaction) : Type 0 where
  pub at_most : output_value tx ≤ total
  pub at_least : total ≤ output_value tx + 2 * 999
  pub no_dust : All (λ o. dust_limit ≤ o.value) tx.output
  pub spends : (sequence : ℕ) × (tx.input ≡ unsigned_input spent sequence ∷ [])

module _ (spent : OutPoint) (sequence total : ℕ) where
  create_cet-Pays :
      (o a : TxOut) (i j lock : ℕ)
      → o.value + a.value ≡ total
      → Pays total spent (create_cet o i a j (unsigned_input spent sequence) lock)
  unfolding create_cet discard_dust keep sum_by
  create_cet-Pays o a i j lock e = record {
    at_most = ground arith;
    at_least = ground arith;
    no_dust = ground arith;
    spends = (sequence, refl);
  }

  create_refund_transaction-Pays :
      (o a : TxOut) (lock : ℕ)
      → o.value + a.value ≡ total
      → Pays total spent (create_refund_transaction o a (unsigned_input spent sequence) lock)
  unfolding create_refund_transaction discard_dust keep sum_by
  create_refund_transaction-Pays o a lock e = record {
    at_most = ground arith;
    at_least = ground arith;
    no_dust = ground arith;
    spends = (sequence, refl);
  }

abbrev pub AddsUp : ℕ → Payout → Type 0
AddsUp total p = p.offer + p.accept ≡ total

pub has_proper_outcomes_iff :
    (total : ℕ) (ps : List Payout)
    → total < two_64
    → (has_proper_outcomes total ps ≡ true) ↔ All (AddsUp total) ps
unfolding has_proper_outcomes all checked_add
has_proper_outcomes_iff total [] h = (λ _. tt, λ _. refl)
has_proper_outcomes_iff total (p ∷ ps) h =
    let ih = has_proper_outcomes_iff total ps h in
    (λ e. ground (arith, ih.0), λ q. ground (arith, ih.1 q.1))

module _ (spent : OutPoint) (sequence : ℕ) where
  create_cets-Pays :
      (total : ℕ) (o_spk : Bytes) (i : ℕ) (a_spk : Bytes) (j : ℕ) (ps : List Payout) (lock : ℕ)
      → All (AddsUp total) ps
      → All (Pays total spent) (create_cets (unsigned_input spent sequence) o_spk i a_spk j ps lock)
  unfolding create_cets
  create_cets-Pays total o_spk i a_spk j [] lock h = tt
  create_cets-Pays total o_spk i a_spk j (p ∷ ps) lock h = (
    create_cet-Pays spent sequence total (record { value = p.offer; script_pubkey = o_spk })
        (record { value = p.accept; script_pubkey = a_spk }) i j lock h.0,
    create_cets-Pays total o_spk i a_spk j ps lock h.1,
  )

  length-create_cets :
      (o_spk : Bytes) (i : ℕ) (a_spk : Bytes) (j : ℕ) (ps : List Payout) (lock : ℕ)
      → length (create_cets (unsigned_input spent sequence) o_spk i a_spk j ps lock) ≡ length ps
  unfolding create_cets
  length-create_cets o_spk i a_spk j [] lock = refl
  length-create_cets o_spk i a_spk j (p ∷ ps) lock =
      ap suc (length-create_cets o_spk i a_spk j ps lock)

-- What a contract's closing transactions satisfy.
pub record Closes (total : ℕ) (spent : OutPoint) (payouts : List Payout)
    (txs : List Transaction × Transaction) : Type 0 where
  pub add_up : All (AddsUp total) payouts
  pub one_each : length txs.0 ≡ length payouts
  pub cets_pay : All (Pays total spent) txs.0
  pub refund_pays : Pays total spent txs.1

module _ (o a : PartyParams) (spent : OutPoint) (ps : List Payout) (refund_lock cet_lock : ℕ)
    (seq : Option ℕ) where
  pub create_cets_and_refund_tx-OnOk :
      OnOk
        (Closes (o.collateral + a.collateral) spent ps)
        (create_cets_and_refund_tx o a spent ps refund_lock cet_lock seq)
  unfolding create_cets_and_refund_tx checked_add
  create_cets_and_refund_tx-OnOk = elim (Bool-cases (ltb (o.collateral + a.collateral) two_64)) [
    | inr e ↦ rw e tt
    | inl e ↦ rw e (elim (Bool-cases (has_proper_outcomes (o.collateral + a.collateral) ps)) [
      | inr f ↦ rw f tt
      | inl f ↦ rw f (record {
        add_up = (has_proper_outcomes_iff _ ps (ltb→lt _ _ e)).0 f;
        one_each = length-create_cets spent _ _ _ _ _ ps _;
        cets_pay =
            create_cets-Pays spent _ _ _ _ _ _ ps _
              ((has_proper_outcomes_iff _ ps (ltb→lt _ _ e)).0 f);
        refund_pays = create_refund_transaction-Pays spent _ _ _ _ refund_lock refl;
      })
    ])
  ]

  -- If the transactions are made, every payout adds up to the two collaterals, there is one contract
  -- execution transaction for each payout, and each of these and the refund spend the given output
  -- and pay out the two collaterals with no output below 1000 satoshis, short of at most two
  -- outputs of 999.
  pub create_cets_and_refund_tx-Closes :
      (txs : List Transaction × Transaction)
      → create_cets_and_refund_tx o a spent ps refund_lock cet_lock seq ≡ ok txs
      → Closes (o.collateral + a.collateral) spent ps txs
  create_cets_and_refund_tx-Closes txs h =
      OnOk-ok (Closes (o.collateral + a.collateral) spent ps) _ create_cets_and_refund_tx-OnOk h

  -- With collaterals that do not overflow, transactions are made exactly when every payout adds up
  -- to the two collaterals, and the call is refused as an invalid argument exactly when not.
  pub create_cets_and_refund_tx_iff :
      o.collateral + a.collateral < two_64
      → (All (AddsUp (o.collateral + a.collateral)) ps ↔ (
          (txs : List Transaction × Transaction) × (create_cets_and_refund_tx o a spent ps
              refund_lock cet_lock seq
            ≡ ok txs)))
        × (¬ All (AddsUp (o.collateral + a.collateral)) ps ↔ (
            create_cets_and_refund_tx o a spent ps refund_lock cet_lock seq ≡ err invalid_argument))
  unfolding create_cets_and_refund_tx checked_add
  create_cets_and_refund_tx_iff fits =
      let iff = has_proper_outcomes_iff _ ps fits in
      rw (lt→ltb _ _ fits)
        (elim (Bool-cases (has_proper_outcomes (o.collateral + a.collateral) ps)) [
          | inl f ↦
              rw f (((λ _. (_, refl)), (λ _. iff.0 f)), ((λ n. absurd (n (iff.0 f))), (λ e. cc)))
          | inr f ↦
              rw f (((λ p. cc (iff.1 p)), (λ t. cc t.1)), ((λ _. refl), (λ e p. cc (iff.1 p))))
        ])
