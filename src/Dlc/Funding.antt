-- ===== src/Dlc/Funding.antt =====
-- The funding transaction of a contract in stable-borrow-cli/crates/dlc/src/lib.rs, and the set of
-- transactions of a contract.
pub mod Balance
use p2p_btc_lending.Prelude.{
  ℕ, ◌%◌, List, [], ◌∷◌, ◌++◌, ◌==◌, none, Result, ok, unwrap, assert, ◌>>=◌, ◌>>◌,
}
use p2p_btc_lending.Dlc.Types.{
  Bytes, OutPoint, TxIn, TxOut, Transaction, Payout, PartyParams, DlcTransactions, Bitcoin, Error,
}
use p2p_btc_lending.Dlc.Checked.{checked_add, amount_sum, amount_less}
use p2p_btc_lending.Dlc.Util.{
  order_by_serial_ids, discard_dust, get_sequence, get_output_for_script_pubkey,
}
use p2p_btc_lending.Dlc.Party.{get_change_output_and_fees, get_unsigned_tx_inputs_and_serial_ids}
use p2p_btc_lending.Dlc.Script.{make_funding_redeemscript}
use p2p_btc_lending.Dlc.Cets.{tx_version, dust_limit, create_cets_and_refund_tx}

unfoldable pub create_funding_transaction :
    Bitcoin
    → Bytes
    → ℕ
    → List TxIn
    → List ℕ
    → List TxIn
    → List ℕ
    → TxOut
    → ℕ
    → TxOut
    → ℕ
    → ℕ
    → ℕ
    → Transaction
create_funding_transaction b funding_script_pubkey output_amount offer_inputs offer_ids
      accept_inputs accept_ids offer_change offer_change_id accept_change accept_change_id
      fund_output_id lock_time =
    record {
      version = tx_version;
      lock_time = lock_time;
      input = order_by_serial_ids (offer_inputs ++ accept_inputs) (offer_ids ++ accept_ids);
      output =
          discard_dust
            (order_by_serial_ids
              (record { value = output_amount; script_pubkey = b.to_p2wsh funding_script_pubkey }
                ∷ offer_change
                ∷ accept_change
                ∷ [])
              (fund_output_id ∷ offer_change_id ∷ accept_change_id ∷ []))
            dust_limit;
    }

unfoldable pub create_fund_transaction_with_fees :
    Bitcoin → PartyParams → PartyParams → ℕ → ℕ → ℕ → ℕ → Result Error (Transaction × Bytes)
create_fund_transaction_with_fees b offer_params accept_params fee_rate_per_vb fund_lock_time
      fund_output_serial_id extra_fee =
    do
      total_collateral ← checked_add offer_params.collateral accept_params.collateral
      offer ← get_change_output_and_fees b offer_params fee_rate_per_vb extra_fee
      accept ← get_change_output_and_fees b accept_params fee_rate_per_vb extra_fee
      input_amount ← checked_add offer_params.input_amount accept_params.input_amount
      fund_output_value ← amount_less input_amount (
          offer.change_output.value ∷ accept.change_output.value ∷ offer.fund_fee ∷ accept.fund_fee
          ∷ extra_fee ∷ [])
      locked ←
          amount_sum total_collateral
            (offer.cet_or_refund_fee ∷ accept.cet_or_refund_fee ∷ extra_fee ∷ [])
      assert (locked == fund_output_value)
      inputs ← amount_sum offer_params.input_amount (accept_params.input_amount ∷ [])
      spent ← amount_sum fund_output_value (
          offer.change_output.value ∷ accept.change_output.value ∷ offer.fund_fee ∷ accept.fund_fee
          ∷ extra_fee ∷ [])
      assert (inputs == spent)
      offer_ins ← get_unsigned_tx_inputs_and_serial_ids b offer_params (get_sequence fund_lock_time)
      accept_ins ←
          get_unsigned_tx_inputs_and_serial_ids b accept_params (get_sequence fund_lock_time)
      let script = make_funding_redeemscript b offer_params.fund_pubkey accept_params.fund_pubkey
      ok (
        create_funding_transaction b script fund_output_value offer_ins.0 offer_ins.1 accept_ins.0
            accept_ins.1 offer.change_output offer_params.change_serial_id accept.change_output
            accept_params.change_serial_id fund_output_serial_id fund_lock_time,
        script,
      )

-- An index as a `u32`.
abbrev pub as_u32 : ℕ → ℕ
as_u32 n = n % 4294967296

unfoldable pub create_dlc_transactions :
    Bitcoin
    → PartyParams
    → PartyParams
    → List Payout
    → ℕ
    → ℕ
    → ℕ
    → ℕ
    → ℕ
    → Result Error DlcTransactions
create_dlc_transactions b offer_params accept_params payouts refund_lock_time fee_rate_per_vb
      fund_lock_time cet_lock_time fund_output_serial_id =
    do
      fund ←
          create_fund_transaction_with_fees b offer_params accept_params fee_rate_per_vb
            fund_lock_time fund_output_serial_id 0
      fund_output ← unwrap (get_output_for_script_pubkey fund.0 (b.to_p2wsh fund.1))
      txs ←
          create_cets_and_refund_tx offer_params accept_params
            (record { txid = b.compute_txid fund.0; vout = as_u32 fund_output.0 }) payouts
            refund_lock_time cet_lock_time none
      ok (record { fund = fund.0; cets = txs.0; refund = txs.1; funding_script_pubkey = fund.1 })

-- `get_output_for_script_pubkey(..).unwrap()` at the fund output of a contract.
unfoldable pub get_fund_output_at : Bitcoin → DlcTransactions → Result Error (ℕ × TxOut)
get_fund_output_at b t =
    unwrap (get_output_for_script_pubkey t.fund (b.to_p2wsh t.funding_script_pubkey))

unfoldable pub get_fund_output : Bitcoin → DlcTransactions → Result Error TxOut
unfolding get_fund_output_at
get_fund_output b t = do found ← get_fund_output_at b t; ok found.1

unfoldable pub get_fund_output_index : Bitcoin → DlcTransactions → Result Error ℕ
unfolding get_fund_output_at
get_fund_output_index b t = do found ← get_fund_output_at b t; ok found.0

unfoldable pub get_fund_outpoint : Bitcoin → DlcTransactions → Result Error OutPoint
unfolding get_fund_output_index
get_fund_outpoint b t = do
  index ← get_fund_output_index b t
  ok (record { txid = b.compute_txid t.fund; vout = as_u32 index })
