-- ===== src/Dlc/Cets.antt =====
-- The contract execution transactions and the refund of stable-borrow-cli/crates/dlc/src/lib.rs.
pub mod Payouts
use p2p_btc_lending.Prelude.{
  ℕ, ◌+◌, Bool, true, false, List, [], ◌∷◌, map, Option, none, some, ltb, ◌==◌, all, if◌then◌else◌,
  Result, ok, err, panic, ensure, ◌>>=◌, ◌>>◌,
}
use p2p_btc_lending.Dlc.Types.{
  Bytes, OutPoint, TxIn, TxOut, Transaction, Payout, PartyParams, Error, invalid_argument,
}
use p2p_btc_lending.Dlc.Checked.{checked_add}
use p2p_btc_lending.Dlc.Util.{discard_dust, get_sequence, enable_locktime}

abbrev pub tx_version : ℕ
tx_version = 2

abbrev pub dust_limit : ℕ
dust_limit = 1000

-- The output of the party with the smaller id is first.
unfoldable pub create_cet : TxOut → ℕ → TxOut → ℕ → TxIn → ℕ → Transaction
create_cet offer_output offer_serial_id accept_output accept_serial_id fund_tx_in lock_time =
    record {
      version = tx_version;
      lock_time = lock_time;
      input = fund_tx_in ∷ [];
      output =
          discard_dust
            (if ltb offer_serial_id accept_serial_id
              then offer_output ∷ accept_output ∷ []
              else accept_output ∷ offer_output ∷ [])
            dust_limit;
    }

unfoldable pub create_cets : TxIn → Bytes → ℕ → Bytes → ℕ → List Payout → ℕ → List Transaction
create_cets fund_tx_in offer_spk offer_serial_id accept_spk accept_serial_id [] lock_time = []
create_cets fund_tx_in offer_spk offer_serial_id accept_spk accept_serial_id (p ∷ ps) lock_time =
    create_cet (record { value = p.offer; script_pubkey = offer_spk }) offer_serial_id
      (record { value = p.accept; script_pubkey = accept_spk }) accept_serial_id fund_tx_in
      lock_time
    ∷ create_cets fund_tx_in offer_spk offer_serial_id accept_spk accept_serial_id ps lock_time

unfoldable pub create_refund_transaction : TxOut → TxOut → TxIn → ℕ → Transaction
create_refund_transaction offer_output accept_output funding_input locktime = record {
  version = tx_version;
  lock_time = locktime;
  input = funding_input ∷ [];
  output = discard_dust (offer_output ∷ accept_output ∷ []) dust_limit;
}

-- The two parts of a payout add up to the total, without overflow.
abbrev pub is_total : Result Error ℕ → ℕ → Bool
is_total (ok t) total_collateral = t == total_collateral
is_total (err e) total_collateral = false
is_total panic total_collateral = false

unfoldable pub has_proper_outcomes : ℕ → List Payout → Bool
has_proper_outcomes total_collateral payouts =
    all (λ o. is_total (checked_add o.offer o.accept) total_collateral) payouts

abbrev pub sequence_or : Option ℕ → ℕ → ℕ
sequence_or (some s) d = s
sequence_or none d = d

abbrev pub unsigned_input : OutPoint → ℕ → TxIn
unsigned_input prev_outpoint sequence = record {
  previous_output = prev_outpoint;
  script_sig = [];
  sequence = sequence;
  witness = [];
}

unfoldable pub create_cets_and_refund_tx :
    PartyParams
    → PartyParams
    → OutPoint
    → List Payout
    → ℕ
    → ℕ
    → Option ℕ
    → Result Error (List Transaction × Transaction)
create_cets_and_refund_tx offer_params accept_params prev_outpoint payouts refund_lock_time
      cet_lock_time cet_nsequence =
    do
      total_collateral ← checked_add offer_params.collateral accept_params.collateral
      ensure (has_proper_outcomes total_collateral payouts) invalid_argument
      ok (
        create_cets
            (unsigned_input prev_outpoint (sequence_or cet_nsequence (get_sequence cet_lock_time)))
            offer_params.payout_script_pubkey offer_params.payout_serial_id
            accept_params.payout_script_pubkey accept_params.payout_serial_id payouts cet_lock_time,
        create_refund_transaction
            (record {
              value = offer_params.collateral;
              script_pubkey = offer_params.payout_script_pubkey;
            })
            (record {
              value = accept_params.collateral;
              script_pubkey = accept_params.payout_script_pubkey;
            })
            (unsigned_input prev_outpoint enable_locktime) refund_lock_time,
      )
