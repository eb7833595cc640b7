-- ===== src/Dlc/Funding/Balance.antt =====
-- The balance of the funding transaction.
use p2p_btc_lending.Prelude.{ℕ, ◌≢◌, arith, ok}
use p2p_btc_lending.Dlc.Types.{Bytes, Transaction, PartyParams, Bitcoin}
use p2p_btc_lending.Dlc.Checked.{checked_add, amount_add, amount_sub, amount_sum, amount_less}
use p2p_btc_lending.Dlc.Party.Balance.{get_change_output_and_fees-OnOk}
use p2p_btc_lending.Dlc.Funding.{create_fund_transaction_with_fees}

-- The fee of the collateral transaction and the 100 satoshis, which the party's funds are checked
-- for, are in neither side of the first assertion: no funding transaction is ever returned.
pub create_fund_transaction_with_fees-ne-ok :
    (b : Bitcoin) (o a : PartyParams) (r lock id extra : ℕ) (t : Transaction × Bytes)
    → create_fund_transaction_with_fees b o a r lock id extra ≢ ok t
unfolding create_fund_transaction_with_fees checked_add amount_add amount_sub amount_sum amount_less
create_fund_transaction_with_fees-ne-ok b o a r lock id extra t h = ground (
  arith,
  get_change_output_and_fees-OnOk b o r extra,
  get_change_output_and_fees-OnOk b a r extra,
)
