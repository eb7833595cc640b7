-- ===== src/Updater.antt =====
-- What the functions of stable-borrow-cli/crates/dlc-manager/src/contract_updater.rs, utils.rs and
-- conversion_utils.rs in that crate call, and the parameters of a party.
pub mod Accept
pub mod AcceptLoan
pub mod Sign
pub mod Answer
pub mod Handshake
pub mod Conversion
pub mod Inputs
pub mod Offer
pub mod Tests
use p2p_btc_lending.Prelude.{
  ℕ, suc, ◌+◌, ◌/◌, List, [], ◌∷◌, ◌++◌, Option, none, some, get_elem?, Result, ok, err, unwrap,
  at_index, for_each, ◌>>=◌,
}
use p2p_btc_lending.Dlc.Types.{
  Bytes, OutPoint, TxOut, Transaction, TxInputInfo, PartyParams, Bitcoin,
}
use p2p_btc_lending.Dlc.Checked.{amount_add}
use p2p_btc_lending.Dlc.Util.{weight_to_fee, get_common_fee}
use p2p_btc_lending.Dlc.Signing.{Secp}
use p2p_btc_lending.Messages.{FundingInput}
use p2p_btc_lending.Contract.Types.{Error, conversion}
use p2p_btc_lending.Contract.Info.{Numerical, of_dlc}

-- `?` on an error of conversion_utils.rs
abbrev pub of_option {ℓ} : {A : Type ℓ} → Option A → Result Error A
of_option none = err conversion
of_option (some a) = ok a

-- An output that the wallet can spend.
pub record Utxo : Type 0 where
  pub outpoint : OutPoint
  pub redeem_script : Bytes

-- The libraries, the wallet, the blockchain and the keys as one call finds them. An address stands as
-- the script that it is made of, a signer as its secret key; `serial_id i` is the `i`-th random id
-- that the call draws.
pub record Outside : Type 0 where
  pub bitcoin : Bitcoin
  pub secp : Secp
  pub numericals : Numerical
  pub consensus_encode : Transaction → Bytes
  pub consensus_decode : Bytes → Option Transaction
  pub get_transaction : Bytes → Result Error Transaction
  pub get_new_address : Result Error Bytes
  pub get_new_change_address : Result Error Bytes
  pub get_utxos_for_amount : ℕ → ℕ → Result Error (List Utxo)
  pub serial_id : ℕ → ℕ
  pub derive_contract_signer : Bytes → Result Error Bytes

-- Half the fee, rounded up; the division of `f64` is exact for a fee below 2^53.
unfoldable pub get_half_common_fee : ℕ → Result Error ℕ
get_half_common_fee fee_rate = do
  common_fee ← of_dlc (get_common_fee fee_rate)
  ok ((common_fee + 1) / 2)

-- What the loop over the outputs of the wallet collects.
pub record Funds : Type 0 where
  pub drawn : ℕ
  pub funding_inputs : List FundingInput
  pub funding_tx_info : List TxInputInfo
  pub total_input : ℕ

module _ (out : Outside) where
  abbrev pub funding_input_of : Utxo → Transaction → ℕ → FundingInput
  funding_input_of utxo prev_tx drawn = record {
    input_serial_id = out.serial_id drawn;
    prev_tx = out.consensus_encode prev_tx;
    prev_tx_vout = utxo.outpoint.vout;
    sequence = 0xffffffff;
    max_witness_len = 107;
    redeem_script = utxo.redeem_script;
  }

  -- The info of an input that spends `tx`.
  abbrev pub input_info : FundingInput → Transaction → ℕ → TxInputInfo
  input_info i tx max_witness_len = record {
    outpoint = record { txid = out.bitcoin.compute_txid tx; vout = i.prev_tx_vout };
    max_witness_len = max_witness_len;
    redeem_script = i.redeem_script;
    serial_id = i.input_serial_id;
  }

  -- `TxInputInfo::from(&FundingInput)`
  unfoldable pub to_tx_input_info : FundingInput → Result Error TxInputInfo
  to_tx_input_info i = do
    tx ← unwrap (out.consensus_decode i.prev_tx)
    ok (input_info i tx i.max_witness_len)

  unfoldable pub add_utxo : Utxo → Funds → Result Error Funds
  add_utxo utxo f = do
    prev_tx ← out.get_transaction utxo.outpoint.txid
    let funding_input = funding_input_of utxo prev_tx f.drawn
    spent ← at_index prev_tx.output utxo.outpoint.vout
    total_input ← of_dlc (amount_add f.total_input spent.value)
    info ← to_tx_input_info funding_input
    ok (record {
      drawn = suc f.drawn;
      funding_inputs = f.funding_inputs ++ funding_input ∷ [];
      funding_tx_info = f.funding_tx_info ++ info ∷ [];
      total_input = total_input;
    })

  unfoldable pub get_party_params : ℕ → ℕ → Bytes → Result Error (PartyParams × List FundingInput)
  get_party_params own_collateral fee_rate signer = do
    payout_spk ← out.get_new_address
    change_spk ← out.get_new_change_address
    half ← get_half_common_fee fee_rate
    with_fund ← of_dlc (amount_add own_collateral half)
    output_fee ← of_dlc (weight_to_fee 124 fee_rate)
    appr_required_amount ← of_dlc (amount_add with_fund output_fee)
    utxos ← out.get_utxos_for_amount appr_required_amount fee_rate
    funds ←
        for_each add_utxo utxos
          (record { drawn = 2; funding_inputs = []; funding_tx_info = []; total_input = 0 })
    ok (
      record {
        fund_pubkey = out.secp.public_key signer;
        change_script_pubkey = change_spk;
        change_serial_id = out.serial_id 1;
        payout_script_pubkey = payout_spk;
        payout_serial_id = out.serial_id 0;
        inputs = funds.funding_tx_info;
        input_amount = funds.total_input;
        collateral = own_collateral;
      },
      funds.funding_inputs,
    )

  unfoldable pub get_lender_party_params : Bytes → Result Error PartyParams
  get_lender_party_params signer = do
    payout_spk ← out.get_new_address
    change_spk ← out.get_new_change_address
    ok (record {
      fund_pubkey = out.secp.public_key signer;
      change_script_pubkey = change_spk;
      change_serial_id = out.serial_id 1;
      payout_script_pubkey = payout_spk;
      payout_serial_id = out.serial_id 0;
      inputs = [];
      input_amount = 0;
      collateral = 0;
    })

  -- One input of `get_tx_input_infos`.
  unfoldable pub add_input_info :
      FundingInput → List TxInputInfo × ℕ → Result Error (List TxInputInfo × ℕ)
  add_input_info i acc = do
    tx ← of_option (out.consensus_decode i.prev_tx)
    tx_out ← of_option (get_elem? tx.output i.prev_tx_vout)
    input_amount ← of_dlc (amount_add acc.1 tx_out.value)
    ok (acc.0 ++ input_info i tx 107 ∷ [], input_amount)

  unfoldable pub get_tx_input_infos : List FundingInput → Result Error (List TxInputInfo × ℕ)
  get_tx_input_infos funding_inputs = for_each add_input_info funding_inputs ([], 0)
