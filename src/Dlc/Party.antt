-- ===== src/Dlc/Party.antt =====
-- `PartyParams` of stable-borrow-cli/crates/dlc/src/lib.rs: the weights and fees of one party.
pub mod Balance
use p2p_btc_lending.Prelude.{
  ℕ, ◌+◌, ◌*◌, ◌/◌, Bool, true, false, List, [], ◌∷◌, leb, length, Result, ok, ensure, ◌>>=◌, ◌>>◌,
}
use p2p_btc_lending.Dlc.Types.{
  Bytes, TxIn, TxOut, TxInputInfo, PartyParams, Bitcoin, Error, invalid_argument,
}
use p2p_btc_lending.Dlc.Checked.{checked_add, checked_mul, checked_sum, amount_sub}
use p2p_btc_lending.Dlc.Util.{weight_to_fee, redeem_script_to_script_sig}

abbrev pub fund_tx_base_weight : ℕ
fund_tx_base_weight = 400

abbrev pub cet_base_weight : ℕ
cet_base_weight = 500

abbrev pub tx_input_base_weight : ℕ
tx_input_base_weight = 164

-- The loop over the inputs, from the weight so far.
unfoldable pub inputs_weight : Bitcoin → ℕ → List TxInputInfo → Result Error ℕ
inputs_weight b weight [] = ok weight
inputs_weight b weight (w ∷ ws) = do
  script_sig ← redeem_script_to_script_sig b w.redeem_script
  script_weight ← checked_mul (length script_sig) 4
  weight' ← checked_sum weight (tx_input_base_weight ∷ script_weight ∷ w.max_witness_len ∷ [])
  inputs_weight b weight' ws

unfoldable pub get_fund_fee : Bitcoin → PartyParams → ℕ → Result Error ℕ
get_fund_fee b p fee_rate_per_vb = do
  inputs_weight ← inputs_weight b 0 p.inputs
  change_weight ← checked_mul (length p.change_script_pubkey) 4
  total_fund_weight ←
      checked_sum (fund_tx_base_weight / 2) (inputs_weight ∷ change_weight ∷ 36 ∷ [])
  weight_to_fee total_fund_weight fee_rate_per_vb

-- The fee of the transaction that turns the escrow into the collateral.
unfoldable pub get_collateral_fee : ℕ → Result Error ℕ
get_collateral_fee fee_rate_per_vb = do
  total_collateral_weight ←
      checked_sum (8 + 4 + 4) ((tx_input_base_weight + 32 * 4) ∷ (8 + 4 + (32 + 2) * 4) ∷ [])
  weight_to_fee total_collateral_weight fee_rate_per_vb

unfoldable pub get_cet_fee : PartyParams → ℕ → Result Error ℕ
get_cet_fee p fee_rate_per_vb = do
  output_spk_weight ← checked_mul (length p.payout_script_pubkey) 4
  total_cet_weight ← checked_add (cet_base_weight / 2) output_spk_weight
  weight_to_fee total_cet_weight fee_rate_per_vb

pub record ChangeAndFees : Type 0 where
  pub change_output : TxOut
  pub fund_fee : ℕ
  pub cet_or_refund_fee : ℕ

-- The test of the funds leaves out the 100 satoshis that the change is then lowered by.
unfoldable pub get_change_output_and_fees :
    Bitcoin → PartyParams → ℕ → ℕ → Result Error ChangeAndFees
get_change_output_and_fees b p fee_rate_per_vb extra_fee = do
  fund_fee ← get_fund_fee b p fee_rate_per_vb
  collateral_fee ← get_collateral_fee fee_rate_per_vb
  cet_or_refund_fee ← get_cet_fee p fee_rate_per_vb
  required ← checked_sum p.collateral (fund_fee ∷ collateral_fee ∷ [])
  required_input_funds ← checked_sum required (cet_or_refund_fee ∷ extra_fee ∷ [])
  ensure (leb required_input_funds p.input_amount) invalid_argument
  rest ← amount_sub p.input_amount required_input_funds
  value ← amount_sub rest 100
  ok (record {
    change_output = record { value = value; script_pubkey = p.change_script_pubkey };
    fund_fee = fund_fee;
    cet_or_refund_fee = cet_or_refund_fee;
  })

-- The inputs without signatures; the ids stand in the order of the inputs.
unfoldable pub unsigned_tx_ins : Bitcoin → ℕ → List TxInputInfo → Result Error (List TxIn)
unsigned_tx_ins b sequence [] = ok []
unsigned_tx_ins b sequence (i ∷ is) = do
  script_sig ← redeem_script_to_script_sig b i.redeem_script
  rest ← unsigned_tx_ins b sequence is
  ok (
      record {
        previous_output = i.outpoint;
        script_sig = script_sig;
        sequence = sequence;
        witness = [];
      }
      ∷ rest)

abbrev pub serial_ids : List TxInputInfo → List ℕ
serial_ids [] = []
serial_ids (i ∷ is) = i.serial_id ∷ serial_ids is

unfoldable pub get_unsigned_tx_inputs_and_serial_ids :
    Bitcoin → PartyParams → ℕ → Result Error (List TxIn × List ℕ)
unfolding unsigned_tx_ins
get_unsigned_tx_inputs_and_serial_ids b p sequence = do
  tx_ins ← unsigned_tx_ins b sequence p.inputs
  ok (tx_ins, serial_ids p.inputs)
