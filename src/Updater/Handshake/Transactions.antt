-- ===== src/Updater/Handshake/Transactions.antt =====
-- The transactions of a loan that the two parties compute.
use p2p_btc_lending.Prelude.{
  ℕ, ◌≡◌, refl, subst, List, [], ◌∷◌, All, none, ok, ensure, >>=-eq-ok, ok-inj, arith,
}
use p2p_btc_lending.Dlc.Types.{
  Bytes, TxIn, Transaction, PartyParams, DlcTransactions, Payout, Bitcoin, invalid_argument,
}
use p2p_btc_lending.Dlc.Checked.{checked_add, amount_add}
use p2p_btc_lending.Dlc.Cets.{create_cets_and_refund_tx, has_proper_outcomes}
use p2p_btc_lending.Dlc.Loan.{create_loan_expiration_dlc_transactions, clear_first_witness}
use p2p_btc_lending.Updater.Handshake.Answers.{HasInput, create_cets-HasInput}

-- Another witness for the first input of a transaction.
abbrev pub replace_witness : List Bytes → List TxIn → List TxIn
replace_witness w [] = []
replace_witness w (i ∷ is) = record i { witness = w } ∷ is

abbrev pub with_witness : Transaction → List Bytes → Transaction
with_witness tx w = record tx { input = replace_witness w tx.input }

-- The id of a transaction does not depend on its witnesses.
pub record IsSegwit (b : Bitcoin) : Type 0 where
  pub same_txid :
      (tx : Transaction) (w : List Bytes) → b.compute_txid (with_witness tx w) ≡ b.compute_txid tx

clear-replace :
    (w : List Bytes) (is : List TxIn)
    → clear_first_witness (replace_witness w is) ≡ clear_first_witness is
clear-replace w [] = refl
clear-replace w (i ∷ is) = refl

module _ (b : Bitcoin) (offer accept : PartyParams) (payouts : List Payout) (refund cet : ℕ) where
  -- Whatever witness the collateral transaction has, the loan's transactions are the same.
  pub create_loan_expiration-with_witness :
      IsSegwit b
      → (tx : Transaction) (w : List Bytes) (spk : Bytes)
      → create_loan_expiration_dlc_transactions b offer accept payouts refund cet
          (with_witness tx w)
          spk
        ≡ create_loan_expiration_dlc_transactions b offer accept payouts refund cet tx spk
  unfolding create_loan_expiration_dlc_transactions
  create_loan_expiration-with_witness segwit tx w spk =
      rw (segwit.same_txid tx w, clear-replace w tx.input) refl

  checked-amount : (x y t : ℕ) → checked_add x y ≡ ok t → amount_add x y ≡ ok t
  unfolding checked_add amount_add
  checked-amount x y t e = ground arith

  -- Each transaction that closes the loan has an input, and the collaterals can be added.
  pub create_loan_expiration-HasInput :
      (tx : Transaction) (spk : Bytes) (txs : DlcTransactions)
      → create_loan_expiration_dlc_transactions b offer accept payouts refund cet tx spk ≡ ok txs
      → All HasInput txs.cets × ((t : ℕ) × (amount_add offer.collateral accept.collateral ≡ ok t))
  unfolding create_loan_expiration_dlc_transactions create_cets_and_refund_tx
  create_loan_expiration-HasInput tx spk txs e =
      let (found, made, e1) =
        >>=-eq-ok
          (create_cets_and_refund_tx offer accept (record { txid = b.compute_txid tx; vout = 0 })
            payouts refund cet none)
          _ e in
      let (input, _, e2) = >>=-eq-ok (clear_first_witness tx.input) _ e1 in
      let (total, added, e3) = >>=-eq-ok (checked_add offer.collateral accept.collateral) _ made in
      let (_, _, e4) =
        >>=-eq-ok (ensure (has_proper_outcomes total payouts) invalid_argument) _ e3 in
      (
        subst (λ (t : DlcTransactions). All HasInput t.cets) (ok-inj _ refl e2)
            (subst (λ (p : List Transaction × Transaction). All HasInput p.0) (ok-inj _ refl e4)
              (create_cets-HasInput _ _ _ _ _ payouts cet)),
        (total, checked-amount offer.collateral accept.collateral total added),
      )
