-- ===== src/Dlc/Loan.antt =====
-- The transactions of a loan in stable-borrow-cli/crates/dlc/src/lib.rs: the borrower's escrow, the
-- collateral that spends it, and the contract execution transactions that spend the collateral.
pub mod Balance
pub mod Funded
use p2p_btc_lending.Prelude.{
  ℕ, zero, suc, ◌/◌, ◌%◌, List, [], ◌∷◌, ◌++◌, none, Result, ok, panic, ◌>>=◌, ◌>>◌,
}
use p2p_btc_lending.Dlc.Types.{
  Bytes, OutPoint, TxIn, TxOut, Transaction, Payout, PartyParams, DlcTransactions, Bitcoin, Error,
}
use p2p_btc_lending.Dlc.Checked.{checked_add, amount_add, amount_sub, amount_less}
use p2p_btc_lending.Dlc.Util.{order_by_serial_ids, get_sequence}
use p2p_btc_lending.Dlc.Party.{get_change_output_and_fees, get_unsigned_tx_inputs_and_serial_ids}
use p2p_btc_lending.Dlc.Script.{make_loan_funding_redeemscript, make_collateral_redeemscript}
use p2p_btc_lending.Dlc.Cets.{tx_version, create_cets_and_refund_tx}

-- `to_be_bytes`, of `k` bytes
unfoldable pub to_be_bytes : ℕ → ℕ → Bytes
to_be_bytes zero n = []
to_be_bytes (suc k) n = to_be_bytes k (n / 256) ++ n % 256 ∷ []

-- `Sequence::from_hex("0x64004000")`
abbrev pub escrow_locktime : ℕ
escrow_locktime = 0x64004000

-- The escrow first, then the change, whatever their ids; dust is kept.
unfoldable pub create_escrow_transaction_internal :
    Bitcoin → Bytes → ℕ → List TxIn → List ℕ → TxOut → ℕ → Transaction
create_escrow_transaction_internal b funding_script_pubkey output_amount borrower_inputs
      borrower_ids borrower_change_output lock_time =
    record {
      version = tx_version;
      lock_time = lock_time;
      input = order_by_serial_ids borrower_inputs borrower_ids;
      output =
          record { value = output_amount; script_pubkey = b.to_p2wsh funding_script_pubkey }
          ∷ borrower_change_output
          ∷ [];
    }

unfoldable pub create_escrow_transaction :
    Bitcoin → PartyParams → PartyParams → ℕ → ℕ → ℕ → ℕ → ℕ → Result Error (Transaction × Bytes)
create_escrow_transaction b offer_params accept_params fee_rate_per_vb fund_lock_time
      fund_output_serial_id extra_fee borrower_preimage =
    do
      accept ← get_change_output_and_fees b accept_params fee_rate_per_vb extra_fee
      input_amount ← checked_add offer_params.input_amount accept_params.input_amount
      rest ←
          amount_less input_amount (
            accept.change_output.value ∷ accept.fund_fee ∷ accept.cet_or_refund_fee ∷ extra_fee
            ∷ [])
      fund_output_value ← amount_add rest 100
      accept_ins ←
          get_unsigned_tx_inputs_and_serial_ids b accept_params (get_sequence fund_lock_time)
      let borrower_hash = b.sha256 (to_be_bytes 16 borrower_preimage)
      let script =
          make_loan_funding_redeemscript b accept_params.fund_pubkey offer_params.fund_pubkey
            escrow_locktime borrower_hash
      ok (
        create_escrow_transaction_internal b script fund_output_value accept_ins.0 accept_ins.1
            accept.change_output 0,
        script,
      )

unfoldable pub create_collateral_transaction :
    Bitcoin → Bytes → Bytes → ℕ → TxIn → Bytes → Result Error (Transaction × Bytes)
create_collateral_transaction b borrower_pubkey lender_pubkey collateral_amount escrow_input
      lender_hash =
    do
      let script = make_collateral_redeemscript b borrower_pubkey lender_pubkey lender_hash
      value ← amount_sub collateral_amount 166
      ok (
        record {
          version = tx_version;
          lock_time = 0;
          input = escrow_input ∷ [];
          output = record { value = value; script_pubkey = b.to_p2wsh script } ∷ [];
        },
        script,
      )

-- `input[0].witness = Witness::default()`
abbrev pub clear_first_witness : List TxIn → Result Error (List TxIn)
clear_first_witness [] = panic
clear_first_witness (i ∷ is) = ok (record i { witness = [] } ∷ is)

unfoldable pub create_loan_expiration_dlc_transactions :
    Bitcoin
    → PartyParams
    → PartyParams
    → List Payout
    → ℕ
    → ℕ
    → Transaction
    → Bytes
    → Result Error DlcTransactions
create_loan_expiration_dlc_transactions b offer_params accept_params payouts refund_lock_time
      cet_lock_time collateral_tx collateral_script_pubkey =
    do
      txs ←
          create_cets_and_refund_tx offer_params accept_params
            (record { txid = b.compute_txid collateral_tx; vout = 0 }) payouts refund_lock_time
            cet_lock_time none
      input ← clear_first_witness collateral_tx.input
      ok (record {
        fund = record {
          version = tx_version;
          lock_time = 0;
          input = input;
          output = collateral_tx.output;
        };
        cets = txs.0;
        refund = txs.1;
        funding_script_pubkey = collateral_script_pubkey;
      })
