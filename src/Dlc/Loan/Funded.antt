-- ===== src/Dlc/Loan/Funded.antt =====
-- From the escrow over the collateral to the closing transactions of a loan.
use p2p_btc_lending.Prelude.{ℕ, ◌+◌, ◌*◌, ◌≡◌, List, [], ◌∷◌, arith, All, ok, ap, subst}
use p2p_btc_lending.Dlc.Types.{
  Bytes, TxIn, TxOut, Transaction, Payout, PartyParams, DlcTransactions, Bitcoin,
}
use p2p_btc_lending.Dlc.Loan.{
  create_escrow_transaction, create_collateral_transaction, create_loan_expiration_dlc_transactions,
}
use p2p_btc_lending.Dlc.Loan.Balance.{
  Leaves, Leaves-Pays, Leaves-All, create_escrow_transaction-IsEscrow,
  create_collateral_transaction-IsCollateral, create_loan_expiration_dlc_transactions-ok,
}

-- `tx.output[0].value`
abbrev pub first_value : List TxOut → ℕ
first_value [] = 0
first_value (o ∷ os) = o.value

-- Take a loan whose lender brings in neither inputs nor collateral, with an escrow made for the
-- borrower's collateral, a collateral transaction made for the escrow's amount, and the loan's
-- transactions made for that collateral transaction. Then every contract execution transaction and
-- the refund pay less than the collateral output holds by the fee for the weight of the collateral
-- transaction and 34 satoshis, and by at most two outputs of dust more.
pub loan-Leaves :
    (b : Bitcoin) (o a a' : PartyParams) (r lock id extra preimage refund_lock cet_lock : ℕ)
    (ps : List Payout) (borrower lender hash : Bytes) (i : TxIn)
    (escrow collateral : Transaction × Bytes) (d : DlcTransactions)
    → o.input_amount ≡ 0
    → o.collateral ≡ 0
    → a'.collateral ≡ a.collateral
    → create_escrow_transaction b o a r lock id extra preimage ≡ ok escrow
    → create_collateral_transaction b borrower lender (first_value escrow.0.output) i hash
      ≡ ok collateral
    → create_loan_expiration_dlc_transactions b o a' ps refund_lock cet_lock collateral.0
        collateral.1
      ≡ ok d
    → All (Leaves (first_value d.fund.output) (114 * r + 34)) d.cets
      × Leaves (first_value d.fund.output) (114 * r + 34) d.refund
loan-Leaves b o a a' r lock id extra preimage refund_lock cet_lock ps borrower lender hash i escrow
      collateral d no_inputs no_collateral same he hc hd =
    let e = create_escrow_transaction-IsEscrow b o a r lock id extra preimage escrow he in
    let c = create_collateral_transaction-IsCollateral b borrower lender _ i hash collateral hc in
    let (closes, outs, spk) =
      create_loan_expiration_dlc_transactions-ok b o a' ps refund_lock cet_lock _ _ d hd in
    let held : o.collateral + a'.collateral + (114 * r + 34) ≡ first_value d.fund.output = omega (
      arith,
      ap first_value outs,
      ap first_value c.outputs,
      ap first_value e.outputs,
      c.value_less,
    ) in
    (
      subst (λ v. All (Leaves v (114 * r + 34)) d.cets) held
          (Leaves-All _ _ _ d.cets closes.cets_pay),
      subst (λ v. Leaves v (114 * r + 34) d.refund) held
          (Leaves-Pays _ _ _ d.refund closes.refund_pays),
    )
