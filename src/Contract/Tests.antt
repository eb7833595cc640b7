-- ===== src/Contract/Tests.antt =====
-- Ids of 32 bytes, and the profits of one closing.
use p2p_btc_lending.Prelude.{
  ℕ, zero, suc, ◌≢◌, ◌≡◌, refl, [], ◌∷◌, ◌<◌, arith, ok, none, true, keep, bytes_eq,
}
use p2p_btc_lending.Prelude.Int.{pos, negsuc, ◌+ℤ◌}
use p2p_btc_lending.Dlc.Types.{Bytes, TxIn, Transaction}
use p2p_btc_lending.Dlc.Util.{discard_dust}
use p2p_btc_lending.Dlc.Cets.{create_cet}
use p2p_btc_lending.Dlc.Tests.{lender, borrower, funding, closing, spent}
use p2p_btc_lending.Contract.Types.{AcceptedContract}
use p2p_btc_lending.Contract.Pnl.{paid_to, compute_pnl}
use p2p_btc_lending.Contract.Pnl.Sum.{other_side, compute_pnl-zero_sum}
use p2p_btc_lending.Contract.Ids.{compute_id}
use p2p_btc_lending.Contract.Ids.Distinct.{AllBytes, compute_id-ne}

abbrev repeated : ℕ → ℕ → Bytes
repeated zero x = []
repeated (suc n) x = x ∷ repeated n x

repeated-AllBytes : (n x : ℕ) → x < 256 → AllBytes (repeated n x)
repeated-AllBytes zero x h = tt
repeated-AllBytes (suc n) x h = (h, repeated-AllBytes n x h)

compute_id-ne_example :
    compute_id (repeated 32 200) 513 (repeated 32 9)
    ≢ compute_id (repeated 32 200) 513 (repeated 32 8)
compute_id-ne_example =
    compute_id-ne (repeated 32 200) 513 (repeated 32 9) (repeated 32 8)
      (repeated-AllBytes 32 200 (omega arith)) (repeated-AllBytes 32 9 (omega arith))
      (repeated-AllBytes 32 8 (omega arith)) refl refl refl (λ e. cc e)

abbrev contract_test : AcceptedContract
contract_test = record {
  offered_contract = record {
    id = 5 ∷ 6 ∷ [];
    is_offer_party = true;
    contract_info = [];
    counter_party = 4 ∷ [];
    offer_params = record lender { collateral = 100000 };
    total_collateral = 600000;
    funding_inputs = [];
    fund_output_serial_id = 4;
    fee_rate_per_vb = 2;
    cet_locktime = 50;
    refund_locktime = 100;
    keys_id = 1 ∷ [];
  };
  accept_params = borrower;
  funding_inputs = [];
  adaptor_infos = [];
  adaptor_signatures = none;
  accept_refund_signature = [];
  dlc_transactions = record {
    fund = funding;
    cets = closing.0;
    refund = closing.1;
    funding_script_pubkey = 3 ∷ [];
  };
}

abbrev input_test : TxIn
input_test = record { previous_output = spent; script_sig = []; sequence = 0; witness = [] }

abbrev cet_test : Transaction
cet_test =
    create_cet (record { value = 350000; script_pubkey = 20 ∷ 3 ∷ [] }) 2
      (record { value = 250000; script_pubkey = 20 ∷ 5 ∷ [] }) 1 input_test 50

pnl_lender : compute_pnl contract_test cet_test ≡ ok (pos 250000)
unfolding compute_pnl paid_to create_cet discard_dust keep bytes_eq
pnl_lender = refl

pnl_borrower : compute_pnl (other_side contract_test) cet_test ≡ ok (negsuc 249999)
unfolding compute_pnl paid_to create_cet discard_dust keep bytes_eq
pnl_borrower = refl

compute_pnl-zero_sum_example : pos 250000 +ℤ negsuc 249999 ≡ pos 0
compute_pnl-zero_sum_example =
    compute_pnl-zero_sum contract_test 350000 250000 2 1 50 input_test (pos 250000) (negsuc 249999)
      (λ e. cc e) (omega arith) (omega arith) refl pnl_lender pnl_borrower
