-- ===== src/Dlc/Loan/Balance.antt =====
-- What the escrow, the collateral and the contract execution transactions of a loan hold.
use p2p_btc_lending.Prelude.{
  ℕ, ◌+◌, ◌*◌, ◌≤◌, ◌≡◌, List, [], ◌∷◌, arith, All, sum_by, ok, >>=-eq-ok, ap, subst, none,
}
use p2p_btc_lending.Dlc.Types.{
  Bytes, OutPoint, TxIn, TxOut, Transaction, Payout, PartyParams, DlcTransactions, Bitcoin,
}
use p2p_btc_lending.Dlc.Checked.{
  checked_add, amount_add, amount_sub, amount_less, checked_add-ok, amount_add-ok, amount_less-ok,
  amount_sub-ok,
}
use p2p_btc_lending.Dlc.Util.{get_sequence}
use p2p_btc_lending.Dlc.Party.{
  ChangeAndFees, get_change_output_and_fees, get_unsigned_tx_inputs_and_serial_ids,
}
use p2p_btc_lending.Dlc.Party.Balance.{get_change_output_and_fees-IsBalanced}
use p2p_btc_lending.Dlc.Cets.{create_cets_and_refund_tx}
use p2p_btc_lending.Dlc.Cets.Payouts.{Pays, Closes, output_value, create_cets_and_refund_tx-Closes}
use p2p_btc_lending.Dlc.Loan.{
  create_escrow_transaction_internal, create_escrow_transaction, create_collateral_transaction,
  clear_first_witness, create_loan_expiration_dlc_transactions,
}

-- The outputs of an escrow: the borrower's collateral, the fee of the collateral transaction and
-- 200 satoshis, with all that the lender brings in; then the borrower's change.
pub record IsEscrow (b : Bitcoin) (o a : PartyParams) (r extra : ℕ) (t : Transaction × Bytes)
    : Type 0 where
  pub change : ChangeAndFees
  pub change_made : get_change_output_and_fees b a r extra ≡ ok change
  pub outputs :
      t.0.output
      ≡ record {
        value = o.input_amount + a.collateral + 114 * r + 200;
        script_pubkey = b.to_p2wsh t.1;
      }
        ∷ change.change_output
        ∷ []
  pub conserved :
      output_value t.0 + change.fund_fee + change.cet_or_refund_fee + extra
      ≡ o.input_amount + a.input_amount + 100

module _ (b : Bitcoin) (o a : PartyParams) (r lock id extra preimage : ℕ) where
  -- An escrow transaction pays the collateral, the fee of the collateral transaction and 200
  -- satoshis to the escrow script, and the change to the borrower. Its outputs, the borrower's fees
  -- and the extra fee exceed the inputs of both parties by 100 satoshis.
  pub create_escrow_transaction-IsEscrow :
      (t : Transaction × Bytes)
      → create_escrow_transaction b o a r lock id extra preimage ≡ ok t
      → IsEscrow b o a r extra t
  unfolding create_escrow_transaction create_escrow_transaction_internal sum_by
  create_escrow_transaction-IsEscrow t h =
      let (c, ec, h1) = >>=-eq-ok (get_change_output_and_fees b a r extra) _ h in
      let (ins, ei, h2) = >>=-eq-ok (checked_add o.input_amount a.input_amount) _ h1 in
      let (rest, er, h3) =
        >>=-eq-ok
          (amount_less ins (c.change_output.value ∷ c.fund_fee ∷ c.cet_or_refund_fee ∷ extra ∷ []))
          _ h2 in
      let (value, ev, h4) = >>=-eq-ok (amount_add rest 100) _ h3 in
      let (tx_ins, et, h5) =
        >>=-eq-ok (get_unsigned_tx_inputs_and_serial_ids b a (get_sequence lock)) _ h4 in
      let balanced = get_change_output_and_fees-IsBalanced b a r extra c ec in
      let sums : value ≡ o.input_amount + a.collateral + 114 * r + 200 = omega (
        arith,
        balanced.balance,
        checked_add-ok _ _ _ ei,
        amount_less-ok _ _ _ er,
        amount_add-ok _ _ _ ev,
      ) in
      let outs : t.0.output
          ≡ record {
            value = o.input_amount + a.collateral + 114 * r + 200;
            script_pubkey = b.to_p2wsh t.1;
          }
            ∷ c.change_output
            ∷ [] =
        cc (sums, h5) in
      record {
        change = c;
        change_made = ec;
        outputs = outs;
        conserved = omega (arith, balanced.balance, ap (sum_by (λ (x : TxOut). x.value)) outs);
      }

pub record IsCollateral (b : Bitcoin) (escrow_input : TxIn) (amount : ℕ) (t : Transaction × Bytes)
    : Type 0 where
  pub spends_escrow : t.0.input ≡ escrow_input ∷ []
  pub value : ℕ
  pub value_less : value + 166 ≡ amount
  pub outputs : t.0.output ≡ record { value = value; script_pubkey = b.to_p2wsh t.1 } ∷ []

-- A collateral transaction has the escrow for its one input and, for its one output, the escrow's
-- amount less 166 satoshis to the collateral script.
pub create_collateral_transaction-IsCollateral :
    (b : Bitcoin) (borrower lender : Bytes) (amount : ℕ) (i : TxIn) (hash : Bytes)
    (t : Transaction × Bytes)
    → create_collateral_transaction b borrower lender amount i hash ≡ ok t
    → IsCollateral b i amount t
unfolding create_collateral_transaction
create_collateral_transaction-IsCollateral b borrower lender amount i hash t h =
    let (v, ev, h1) = >>=-eq-ok (amount_sub amount 166) _ h in
    record {
      spends_escrow = cc h1;
      value = v;
      value_less = amount_sub-ok amount 166 v ev;
      outputs = cc h1;
    }

-- The contract of a loan keeps the outputs of the collateral transaction, and its closing
-- transactions spend the first of them.
pub create_loan_expiration_dlc_transactions-ok :
    (b : Bitcoin) (o a : PartyParams) (ps : List Payout) (refund_lock cet_lock : ℕ)
    (tx : Transaction) (spk : Bytes) (d : DlcTransactions)
    → create_loan_expiration_dlc_transactions b o a ps refund_lock cet_lock tx spk ≡ ok d
    → Closes
        (o.collateral + a.collateral)
        (record { txid = b.compute_txid tx; vout = 0 })
        ps
        (d.cets, d.refund)
      × (d.fund.output ≡ tx.output)
      × (d.funding_script_pubkey ≡ spk)
unfolding create_loan_expiration_dlc_transactions
create_loan_expiration_dlc_transactions-ok b o a ps refund_lock cet_lock tx spk d h =
    let (txs, et, h1) =
      >>=-eq-ok (create_cets_and_refund_tx o a _ ps refund_lock cet_lock none) _ h in
    let (ins, ei, h2) = >>=-eq-ok (clear_first_witness tx.input) _ h1 in
    let same : txs ≡ (d.cets, d.refund) = cc h2 in
    (
      subst (Closes _ _ ps) same
          (create_cets_and_refund_tx-Closes o a _ ps refund_lock cet_lock none txs et),
      cc h2,
      cc h2,
    )

-- Each closing transaction leaves `fee` of the value that it spends, and up to two outputs of dust.
abbrev pub Leaves : ℕ → ℕ → Transaction → Type 0
Leaves value fee tx = (output_value tx + fee ≤ value) × (value ≤ output_value tx + fee + 2 * 999)

pub Leaves-Pays :
    (total fee : ℕ) (spent : OutPoint) (tx : Transaction)
    → Pays total spent tx
    → Leaves (total + fee) fee tx
Leaves-Pays total fee spent tx p = (omega (arith, p.at_most), omega (arith, p.at_least))

pub Leaves-All :
    (total fee : ℕ) (spent : OutPoint) (txs : List Transaction)
    → All (Pays total spent) txs
    → All (Leaves (total + fee) fee) txs
Leaves-All total fee spent [] h = tt
Leaves-All total fee spent (tx ∷ txs) h =
    (Leaves-Pays total fee spent tx h.0, Leaves-All total fee spent txs h.1)
