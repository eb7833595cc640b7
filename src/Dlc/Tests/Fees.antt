-- ===== src/Dlc/Tests/Fees.antt =====
-- The results on fees, orders, scripts and payouts at small inputs.
use p2p_btc_lending.Prelude.{
  ltb, ℕ, ◌+◌, ◌-◌, ◌≡◌, ◌≢◌, refl, Bool, true, false, List, [], ◌∷◌, ◌++◌, none, arith, leb, All,
  all, keep, ok, err, panic, ◌↔◌, map, leb→le, leb-false, if◌then◌else◌,
}
use mathlib.Core.List.{Perm}
use p2p_btc_lending.Dlc.Types.{Bytes, Transaction, Bitcoin, invalid_argument}
use p2p_btc_lending.Dlc.Checked.{checked_add, checked_mul, checked_sum, amount_sub}
use p2p_btc_lending.Dlc.Util.{
  weight_to_fee, redeem_script_to_script_sig, order_by_serial_ids, zip_ids, drop_id, discard_dust,
  get_sequence,
}
use p2p_btc_lending.Dlc.Util.Order.{order_by_serial_ids-perm, IsSorted}
use p2p_btc_lending.Dlc.Party.{
  ChangeAndFees, inputs_weight, get_fund_fee, get_collateral_fee, get_cet_fee,
  get_change_output_and_fees,
}
use p2p_btc_lending.Dlc.Party.Balance.{
  required_funds, IsBalanced, get_change_output_and_fees-IsBalanced, get_change_output_and_fees_lem,
}
use p2p_btc_lending.Dlc.Script.{
  into_script, make_funding_redeemscript, make_loan_funding_redeemscript,
  make_collateral_redeemscript, loan_funding_instructions, collateral_instructions,
  make_loan_escrow_after_codesep_script, make_collateral_after_codesep_script,
}
use p2p_btc_lending.Dlc.Script.Suffix.{
  after_codesep, make_loan_escrow_after_codesep_script_suffix,
  make_collateral_after_codesep_script_suffix, make_funding_redeemscript_comm,
}
use p2p_btc_lending.Dlc.Cets.{
  create_cet, create_cets, create_refund_transaction, has_proper_outcomes,
  create_cets_and_refund_tx,
}
use p2p_btc_lending.Dlc.Cets.Payouts.{
  AddsUp, Closes, create_cets_and_refund_tx-Closes, create_cets_and_refund_tx_iff,
}
use p2p_btc_lending.Dlc.Funding.{create_fund_transaction_with_fees}
use p2p_btc_lending.Dlc.Funding.Balance.{create_fund_transaction_with_fees-ne-ok}
use p2p_btc_lending.Dlc.Tests.{bitcoin_test, lender, borrower, payouts, spent, funding, closing}

fund_fee_borrower : get_fund_fee bitcoin_test borrower 2 ≡ ok 258
unfolding get_fund_fee inputs_weight redeem_script_to_script_sig checked_add checked_mul checked_sum
    weight_to_fee
fund_fee_borrower = refl

cet_fee_borrower : get_cet_fee borrower 2 ≡ ok 130
unfolding get_cet_fee checked_add checked_mul weight_to_fee
cet_fee_borrower = refl

abbrev change_borrower : ChangeAndFees
change_borrower = record {
  change_output = record { value = 499284; script_pubkey = 20 ∷ 4 ∷ [] };
  fund_fee = 258;
  cet_or_refund_fee = 130;
}

get_change_borrower : get_change_output_and_fees bitcoin_test borrower 2 0 ≡ ok change_borrower
unfolding get_change_output_and_fees get_fund_fee inputs_weight redeem_script_to_script_sig
    checked_add checked_mul checked_sum weight_to_fee get_collateral_fee get_cet_fee amount_sub
get_change_borrower = refl

get_change_output_and_fees-IsBalanced_example : IsBalanced borrower 2 0 change_borrower
get_change_output_and_fees-IsBalanced_example =
    get_change_output_and_fees-IsBalanced bitcoin_test borrower 2 0 change_borrower
      get_change_borrower

get_change_output_and_fees_lem_example :
    let needed = required_funds borrower 258 130 2 0 in
    get_change_output_and_fees bitcoin_test borrower 2 0 ≡ (
      if ltb borrower.input_amount needed
      then err invalid_argument
      else if ltb borrower.input_amount (needed + 100)
      then panic
      else ok (record {
        change_output = record {
          value = borrower.input_amount - needed - 100;
          script_pubkey = borrower.change_script_pubkey;
        };
        fund_fee = 258;
        cet_or_refund_fee = 130;
      }))
get_change_output_and_fees_lem_example =
    get_change_output_and_fees_lem bitcoin_test borrower 2 0 258 130 fund_fee_borrower
      cet_fee_borrower (omega arith)

abbrev outs : List Bytes
outs = (1 ∷ []) ∷ (2 ∷ []) ∷ (3 ∷ []) ∷ []

order_by_serial_ids-perm_example :
    Perm (order_by_serial_ids outs (9 ∷ 4 ∷ 9 ∷ [])) outs
    × ((ps : List (ℕ × Bytes)) × IsSorted ps
        × Perm ps (zip_ids (9 ∷ 4 ∷ 9 ∷ []) outs)
        × (map drop_id ps ≡ order_by_serial_ids outs (9 ∷ 4 ∷ 9 ∷ [])))
order_by_serial_ids-perm_example = order_by_serial_ids-perm outs (9 ∷ 4 ∷ 9 ∷ []) refl

make_loan_escrow_after_codesep_script_suffix_example :
    (into_script bitcoin_test
        (after_codesep (loan_funding_instructions (3 ∷ []) (2 ∷ []) 144 (8 ∷ [])))
      ≡ make_loan_escrow_after_codesep_script bitcoin_test (2 ∷ []) (8 ∷ []))
    × ((front : Bytes) × (make_loan_funding_redeemscript bitcoin_test (3 ∷ []) (2 ∷ []) 144 (8 ∷ [])
          ≡ front ++ make_loan_escrow_after_codesep_script bitcoin_test (2 ∷ []) (8 ∷ [])))
make_loan_escrow_after_codesep_script_suffix_example =
    make_loan_escrow_after_codesep_script_suffix bitcoin_test (3 ∷ []) (2 ∷ []) 144 (8 ∷ [])

make_collateral_after_codesep_script_suffix_example :
    (into_script bitcoin_test (after_codesep (collateral_instructions (3 ∷ []) (2 ∷ []) (8 ∷ [])))
      ≡ make_collateral_after_codesep_script bitcoin_test (8 ∷ []))
    × ((front : Bytes) × (make_collateral_redeemscript bitcoin_test (3 ∷ []) (2 ∷ []) (8 ∷ [])
          ≡ front ++ make_collateral_after_codesep_script bitcoin_test (8 ∷ [])))
make_collateral_after_codesep_script_suffix_example =
    make_collateral_after_codesep_script_suffix bitcoin_test (3 ∷ []) (2 ∷ []) (8 ∷ [])

abbrev lex_le : Bytes → Bytes → Bool
lex_le [] ys = true
lex_le (x ∷ xs) [] = false
lex_le (x ∷ xs) (y ∷ ys) =
    let rest = lex_le xs ys in if leb x y then (if leb y x then rest else true) else false

abbrev bitcoin_lex : Bitcoin
bitcoin_lex = record bitcoin_test { pubkey_le = lex_le }

lex_le_total : (x y : Bytes) → lex_le x y ≡ false → lex_le y x ≡ true
lex_le_total [] ys h = absurd (cc)
lex_le_total (x ∷ xs) [] h = refl
lex_le_total (x ∷ xs) (y ∷ ys) h =
    ground (arith, lex_le_total xs ys, leb→le x y, leb→le y x, leb-false x y, leb-false y x)

lex_le_antisym : (x y : Bytes) → lex_le x y ≡ true → lex_le y x ≡ true → x ≡ y
lex_le_antisym [] [] h k = refl
lex_le_antisym [] (y ∷ ys) h k = absurd (cc)
lex_le_antisym (x ∷ xs) [] h k = absurd (cc)
lex_le_antisym (x ∷ xs) (y ∷ ys) h k =
    let e : x ≡ y = ground arith in
    let es : xs ≡ ys = ground (arith, lex_le_antisym xs ys) in cc (e, es)

make_funding_redeemscript_comm_example :
    make_funding_redeemscript bitcoin_lex (3 ∷ 1 ∷ []) (3 ∷ [])
    ≡ make_funding_redeemscript bitcoin_lex (3 ∷ []) (3 ∷ 1 ∷ [])
make_funding_redeemscript_comm_example =
    make_funding_redeemscript_comm bitcoin_lex (3 ∷ 1 ∷ []) (3 ∷ []) lex_le_total lex_le_antisym

create_cets_and_refund_tx_iff_example :
    (All (AddsUp 500000) payouts ↔ (
      (txs : List Transaction × Transaction) × (create_cets_and_refund_tx lender borrower spent
          payouts 100 50 none
        ≡ ok txs)))
    × (¬ All (AddsUp 500000) payouts ↔ (
        create_cets_and_refund_tx lender borrower spent payouts 100 50 none ≡ err invalid_argument))
create_cets_and_refund_tx_iff_example =
    create_cets_and_refund_tx_iff lender borrower spent payouts 100 50 none (omega arith)

create_fund_transaction_with_fees-ne-ok_example :
    create_fund_transaction_with_fees bitcoin_test borrower borrower 2 0 4 0 ≢ ok (funding, 1 ∷ [])
create_fund_transaction_with_fees-ne-ok_example =
    create_fund_transaction_with_fees-ne-ok bitcoin_test borrower borrower 2 0 4 0 (funding, 1 ∷ [])

closing_made : create_cets_and_refund_tx lender borrower spent payouts 100 50 none ≡ ok closing
unfolding create_cets_and_refund_tx create_cet create_cets create_refund_transaction
    has_proper_outcomes checked_add all discard_dust keep get_sequence
closing_made = refl

create_cets_and_refund_tx-Closes_example : Closes 500000 spent payouts closing
create_cets_and_refund_tx-Closes_example =
    create_cets_and_refund_tx-Closes lender borrower spent payouts 100 50 none closing closing_made
