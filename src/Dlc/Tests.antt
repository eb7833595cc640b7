-- ===== src/Dlc/Tests.antt =====
-- A loan of small numbers, run through the code.
pub mod Fees
pub mod Loans
use p2p_btc_lending.Prelude.{
  ℕ, zero, suc, ◌+◌, ◌*◌, ◌-◌, ◌≤◌, ◌<◌, ◌≡◌, ◌≢◌, refl, Bool, true, false, List, [], ◌∷◌, ◌++◌,
  Option, some, none, arith, leb, length, All, all, keep, Result, ok, err, panic, ◌↔◌,
}
use mathlib.Core.List.{Perm}
use p2p_btc_lending.Dlc.Types.{
  Bytes, OutPoint, TxIn, TxOut, Transaction, Payout, TxInputInfo, PartyParams, DlcTransactions,
  Bitcoin, Error, Instruction, push_opcode, push_slice, push_int, push_sequence, invalid_argument,
}
use p2p_btc_lending.Dlc.Checked.{
  checked_add, checked_mul, checked_sum, amount_add, amount_sub, amount_less, two_64,
}
use p2p_btc_lending.Dlc.Util.{
  weight_to_fee, redeem_script_to_script_sig, order_by_serial_ids, insert_by_id, sort_by_id,
  zip_ids, drop_id, discard_dust, get_sequence,
}
use p2p_btc_lending.Dlc.Util.Order.{order_by_serial_ids-perm, IsSorted}
use p2p_btc_lending.Dlc.Party.{
  ChangeAndFees, inputs_weight, get_fund_fee, get_collateral_fee, get_cet_fee,
  get_change_output_and_fees, unsigned_tx_ins, get_unsigned_tx_inputs_and_serial_ids,
}
use p2p_btc_lending.Dlc.Loan.{
  to_be_bytes, create_escrow_transaction, create_escrow_transaction_internal,
  create_collateral_transaction, create_loan_expiration_dlc_transactions,
}
use p2p_btc_lending.Dlc.Cets.{
  create_cet, create_cets, create_refund_transaction, has_proper_outcomes,
  create_cets_and_refund_tx,
}
use p2p_btc_lending.Dlc.Script.{
  into_script, make_loan_funding_redeemscript, make_collateral_redeemscript,
}

abbrev pub encode_test : Instruction → Bytes
encode_test (push_opcode o) = 200 ∷ []
encode_test (push_slice bs) = length bs ∷ bs
encode_test (push_int n) = (80 + n) ∷ []
encode_test (push_sequence n) = 4 ∷ n ∷ []

abbrev pub first_le : Bytes → Bytes → Bool
first_le [] ys = true
first_le (x ∷ xs) [] = false
first_le (x ∷ xs) (y ∷ ys) = leb x y

abbrev pub bitcoin_test : Bitcoin
bitcoin_test = record {
  encode = encode_test;
  sha256 = λ xs. length xs ∷ [];
  to_p2wsh = λ xs. 0 ∷ length xs ∷ [];
  witness_program = λ xs. some xs;
  compute_txid = λ t. 7 ∷ 7 ∷ [];
  pubkey_le = first_le;
}

abbrev pub lender : PartyParams
lender = record {
  fund_pubkey = 2 ∷ [];
  change_script_pubkey = 20 ∷ 2 ∷ [];
  change_serial_id = 2;
  payout_script_pubkey = 20 ∷ 3 ∷ [];
  payout_serial_id = 2;
  inputs = [];
  input_amount = 0;
  collateral = 0;
}

abbrev pub borrower : PartyParams
borrower = record {
  fund_pubkey = 3 ∷ [];
  change_script_pubkey = 20 ∷ 4 ∷ [];
  change_serial_id = 3;
  payout_script_pubkey = 20 ∷ 5 ∷ [];
  payout_serial_id = 1;
  inputs =
      record {
        outpoint = record { txid = 9 ∷ []; vout = 1 };
        max_witness_len = 107;
        redeem_script = [];
        serial_id = 5;
      }
      ∷ [];
  input_amount = 1000000;
  collateral = 500000;
}

abbrev pub spent : OutPoint
spent = record { txid = 7 ∷ 7 ∷ []; vout = 0 }

abbrev pub payouts : List Payout
payouts = record { offer = 500000; accept = 0 } ∷ record { offer = 600; accept = 499400 } ∷ []

abbrev pub escrow_input : TxIn
escrow_input = record {
  previous_output = spent;
  script_sig = [];
  sequence = 1;
  witness = (1 ∷ []) ∷ [];
}

-- A transaction that spends the escrow or the collateral.
abbrev pub spending : ℕ → ℕ → Bytes → Transaction
spending lock value script = record {
  version = 2;
  lock_time = lock;
  input =
      record { previous_output = spent; script_sig = []; sequence = 4294967294; witness = [] } ∷ [];
  output = record { value = value; script_pubkey = script } ∷ [];
}

abbrev pub closing : List Transaction × Transaction
closing = (
  spending 50 500000 (20 ∷ 3 ∷ []) ∷ spending 50 499400 (20 ∷ 5 ∷ []) ∷ [],
  spending 100 500000 (20 ∷ 5 ∷ []),
)

abbrev pub funding : Transaction
funding = spending 0 500262 (0 ∷ 1 ∷ [])

abbrev pub escrow_script : Bytes
escrow_script =
    1 ∷ 3 ∷ 200 ∷ 200 ∷ 200 ∷ 200 ∷ 200 ∷ 4 ∷ 1677737984 ∷ 200 ∷ 200 ∷ 200 ∷ 200 ∷ 200 ∷ 96 ∷ 200
    ∷ 200 ∷ 1 ∷ 16 ∷ 200 ∷ 1 ∷ 2 ∷ 200 ∷ 200 ∷ []

abbrev pub escrow : Transaction × Bytes
escrow = (
  record {
    version = 2;
    lock_time = 0;
    input =
        record {
          previous_output = record { txid = 9 ∷ []; vout = 1 };
          script_sig = [];
          sequence = 4294967295;
          witness = [];
        }
        ∷ [];
    output =
        record { value = 500428; script_pubkey = 0 ∷ 24 ∷ [] }
        ∷ record { value = 499284; script_pubkey = 20 ∷ 4 ∷ [] }
        ∷ [];
  },
  escrow_script,
)
