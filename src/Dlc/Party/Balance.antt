-- ===== src/Dlc/Party/Balance.antt =====
-- What `get_change_output_and_fees` returns, branch by branch.
use p2p_btc_lending.Prelude.{
  ℕ, ◌+◌, ◌*◌, ◌-◌, ◌<◌, ◌≡◌, refl, arith, ok, err, panic, OnOk, OnOk-ok, ltb, if◌then◌else◌,
}
use p2p_btc_lending.Dlc.Types.{PartyParams, Bitcoin, invalid_argument}
use p2p_btc_lending.Dlc.Checked.{two_64, checked_add, checked_mul, checked_sum, amount_sub}
use p2p_btc_lending.Dlc.Util.{weight_to_fee}
use p2p_btc_lending.Dlc.Party.{
  ChangeAndFees, get_fund_fee, get_collateral_fee, get_cet_fee, get_change_output_and_fees,
}

pub get_collateral_fee_lem : (r : ℕ) → get_collateral_fee r ≡ checked_mul 114 r
unfolding get_collateral_fee checked_sum checked_add weight_to_fee
get_collateral_fee_lem r = refl

-- What a party's inputs have to cover, given its two fees. The collateral transaction weighs 456.
abbrev pub required_funds : PartyParams → ℕ → ℕ → ℕ → ℕ → ℕ
required_funds p fund_fee cet_fee fee_rate extra_fee =
    p.collateral + fund_fee + 114 * fee_rate + cet_fee + extra_fee

pub record IsBalanced (p : PartyParams) (r e : ℕ) (c : ChangeAndFees) : Type 0 where
  pub balance :
      c.change_output.value + 100 + required_funds p c.fund_fee c.cet_or_refund_fee r e
      ≡ p.input_amount
  pub to_party : c.change_output.script_pubkey ≡ p.change_script_pubkey

pub get_change_output_and_fees-OnOk :
    (b : Bitcoin) (p : PartyParams) (r e : ℕ)
    → OnOk (IsBalanced p r e) (get_change_output_and_fees b p r e)
unfolding get_change_output_and_fees checked_sum checked_add checked_mul amount_sub
get_change_output_and_fees-OnOk b p r e = ground (arith, get_collateral_fee_lem r)

-- A change output is returned only where the inputs exceed the required funds by 100 satoshis or
-- more; it goes to the party's change script and its value, the 100 satoshis and the required funds
-- add up to the inputs.
pub get_change_output_and_fees-IsBalanced :
    (b : Bitcoin) (p : PartyParams) (r e : ℕ) (c : ChangeAndFees)
    → get_change_output_and_fees b p r e ≡ ok c
    → IsBalanced p r e c
get_change_output_and_fees-IsBalanced b p r e c h =
    OnOk-ok (IsBalanced p r e) _ (get_change_output_and_fees-OnOk b p r e) h

-- With fees `ff` and `cf` and no overflow: inputs below the required funds are refused, inputs that
-- exceed them by less than 100 satoshis make the code panic, and all others give the change.
pub get_change_output_and_fees_lem :
    (b : Bitcoin) (p : PartyParams) (r e ff cf : ℕ)
    → get_fund_fee b p r ≡ ok ff
    → get_cet_fee p r ≡ ok cf
    → required_funds p ff cf r e < two_64
    → let needed = required_funds p ff cf r e in
      get_change_output_and_fees b p r e ≡ (
        if ltb p.input_amount needed
        then err invalid_argument
        else if ltb p.input_amount (needed + 100)
        then panic
        else ok (record {
          change_output = record {
            value = p.input_amount - needed - 100;
            script_pubkey = p.change_script_pubkey;
          };
          fund_fee = ff;
          cet_or_refund_fee = cf;
        }))
unfolding get_change_output_and_fees checked_sum checked_add checked_mul amount_sub
get_change_output_and_fees_lem b p r e ff cf hf hc fits = ground (arith, get_collateral_fee_lem r)
