-- ===== src/Dlc/Tests/Loans.antt =====
-- The results on the escrow, the collateral and the closing transactions at a loan of small numbers.
use p2p_btc_lending.Prelude.{◌≡◌, refl, [], ◌∷◌, All, all, keep, ok}
use p2p_btc_lending.Dlc.Types.{Bytes, Transaction, DlcTransactions}
use p2p_btc_lending.Dlc.Cets.{
  create_cet, create_cets, create_refund_transaction, has_proper_outcomes,
  create_cets_and_refund_tx,
}
use p2p_btc_lending.Dlc.Loan.Balance.{
  IsEscrow, Leaves, create_escrow_transaction-IsEscrow, create_loan_expiration_dlc_transactions-ok,
}
use p2p_btc_lending.Dlc.Loan.Funded.{first_value, loan-Leaves}
use p2p_btc_lending.Dlc.Cets.Payouts.{Closes}
use p2p_btc_lending.Dlc.Tests.{
  bitcoin_test, lender, borrower, spent, payouts, escrow_input, closing, escrow,
}
use p2p_btc_lending.Dlc.Checked.{
  checked_add, checked_mul, checked_sum, amount_add, amount_sub, amount_less,
}
use p2p_btc_lending.Dlc.Util.{
  weight_to_fee, redeem_script_to_script_sig, order_by_serial_ids, insert_by_id, sort_by_id,
  discard_dust, get_sequence,
}
use p2p_btc_lending.Dlc.Party.{
  inputs_weight, get_fund_fee, get_collateral_fee, get_cet_fee, get_change_output_and_fees,
  unsigned_tx_ins, get_unsigned_tx_inputs_and_serial_ids,
}
use p2p_btc_lending.Dlc.Loan.{
  to_be_bytes, create_escrow_transaction, create_escrow_transaction_internal,
  create_collateral_transaction, create_loan_expiration_dlc_transactions,
}
use p2p_btc_lending.Dlc.Cets.{
  create_cet, create_cets, create_refund_transaction, has_proper_outcomes,
  create_cets_and_refund_tx,
}
use p2p_btc_lending.Dlc.Script.{
  into_script, make_loan_funding_redeemscript, make_collateral_redeemscript,
}

escrow_made : create_escrow_transaction bitcoin_test lender borrower 2 0 4 0 77 ≡ ok escrow
unfolding create_escrow_transaction create_escrow_transaction_internal get_change_output_and_fees
    get_fund_fee inputs_weight redeem_script_to_script_sig checked_add checked_mul checked_sum
    weight_to_fee get_collateral_fee get_cet_fee amount_add amount_sub amount_less unsigned_tx_ins
    get_unsigned_tx_inputs_and_serial_ids order_by_serial_ids insert_by_id sort_by_id get_sequence
    to_be_bytes make_loan_funding_redeemscript into_script
escrow_made = refl

create_escrow_transaction-IsEscrow_example : IsEscrow bitcoin_test lender borrower 2 0 escrow
create_escrow_transaction-IsEscrow_example =
    create_escrow_transaction-IsEscrow bitcoin_test lender borrower 2 0 4 0 77 escrow escrow_made

abbrev collateral_script : Bytes
collateral_script =
    1 ∷ 2 ∷ 200 ∷ 1 ∷ 3 ∷ 82 ∷ 200 ∷ 200 ∷ 200 ∷ 200 ∷ 200 ∷ 200 ∷ 200 ∷ 200 ∷ 200 ∷ 200 ∷ 200 ∷ 200
    ∷ 200 ∷ 200 ∷ 96 ∷ 200 ∷ 200 ∷ 1 ∷ 8 ∷ 200 ∷ 200 ∷ 200 ∷ []

abbrev collateral : Transaction × Bytes
collateral = (
  record {
    version = 2;
    lock_time = 0;
    input = escrow_input ∷ [];
    output = record { value = 500262; script_pubkey = 0 ∷ 28 ∷ [] } ∷ [];
  },
  collateral_script,
)

collateral_made :
    create_collateral_transaction bitcoin_test (3 ∷ []) (2 ∷ []) 500428 escrow_input (8 ∷ [])
    ≡ ok collateral
unfolding create_collateral_transaction make_collateral_redeemscript into_script amount_sub
collateral_made = refl

abbrev loan : DlcTransactions
loan = record {
  fund = record {
    version = 2;
    lock_time = 0;
    input = record escrow_input { witness = [] } ∷ [];
    output = record { value = 500262; script_pubkey = 0 ∷ 28 ∷ [] } ∷ [];
  };
  cets = closing.0;
  refund = closing.1;
  funding_script_pubkey = collateral_script;
}

loan_made :
    create_loan_expiration_dlc_transactions bitcoin_test lender borrower payouts 100 50 collateral.0
      collateral_script
    ≡ ok loan
unfolding create_loan_expiration_dlc_transactions create_cets_and_refund_tx create_cet create_cets
    create_refund_transaction has_proper_outcomes checked_add all discard_dust keep get_sequence
loan_made = refl

create_loan_expiration_dlc_transactions-ok_example :
    Closes 500000 spent payouts (loan.cets, loan.refund)
    × (loan.fund.output ≡ collateral.0.output)
    × (loan.funding_script_pubkey ≡ collateral_script)
create_loan_expiration_dlc_transactions-ok_example =
    create_loan_expiration_dlc_transactions-ok bitcoin_test lender borrower payouts 100 50
      collateral.0 collateral_script loan loan_made

loan-Leaves_example :
    All (Leaves (first_value loan.fund.output) 262) loan.cets
    × Leaves (first_value loan.fund.output) 262 loan.refund
loan-Leaves_example =
    loan-Leaves bitcoin_test lender borrower borrower 2 0 4 0 77 100 50 payouts (3 ∷ []) (2 ∷ [])
      (8 ∷ []) escrow_input escrow collateral loan refl refl refl escrow_made collateral_made
      loan_made
