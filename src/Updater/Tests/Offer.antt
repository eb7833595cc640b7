-- ===== src/Updater/Tests/Offer.antt =====
-- The offers of a contract and of a loan, as they run.
use p2p_btc_lending.Prelude.{
  ℕ, ◌≡◌, ◌↔◌, refl, List, [], ◌∷◌, none, ok, true, collect, for_each, all, arith,
}
use p2p_btc_lending.Dlc.Checked.{amount_add, checked_mul}
use p2p_btc_lending.Dlc.Loan.{to_be_bytes}
use p2p_btc_lending.Dlc.Util.{validate_fee_rate, get_common_fee, weight_to_fee}
use p2p_btc_lending.Messages.{
  OracleAnnouncement, OfferDlc, OfferLoanDlc, FundingInput, ContractInfoInner, SerContractInfo,
  enumerated_contract_descriptor, multi, single_contract_info, disjoint_contract_info,
}
use p2p_btc_lending.Contract.Types.{
  ContractInputInfo, ContractInput, LoanContractInput, OfferedContract, OfferedLoanContract,
}
use p2p_btc_lending.Updater.{
  get_party_params, get_lender_party_params, get_half_common_fee, add_utxo, to_tx_input_info,
}
use p2p_btc_lending.Updater.Conversion.{
  Curves, ser_outcome, ser_oracles, ser_descriptor, ser_info, ser_contract_info,
}
use p2p_btc_lending.Updater.Inputs.{
  validate_oracles, validate_infos, validate_input, validate_loan_input,
}
use p2p_btc_lending.Updater.Offer.{
  Drawn, bitcoin_chainhash, get_latest_maturity_date, info_of_input, new_offered_contract,
  offer_dlc_of, offer_loan_dlc_of, offer_contract, offer_loan_contract, try_from_offer_dlc,
  try_from_offer_loan_dlc,
}
use p2p_btc_lending.Updater.Conversion.Readable.{IsReadable}
use p2p_btc_lending.Updater.Offer.Readable.{
  seen_by, try_from_offer_dlc-offer_contract, try_from_offer_loan_dlc-offer_loan_contract,
}
use p2p_btc_lending.Updater.Inputs.Valid.{IsWithin, validate_loan_input_iff}
use p2p_btc_lending.Updater.Tests.{out_test, out_test-IsEncoding, condition_test}

abbrev curves_test : Curves
curves_test = record {
  to_message = λ n. ok n;
  difference_params = λ n. none;
  of_message = λ n params base digits. n;
}

abbrev drawn_test : Drawn
drawn_test = record {
  temporary_id = 5 ∷ 6 ∷ [];
  unix_time_now = 30;
  derive_signer_key_id = λ is_offer id. 1 ∷ [];
}

abbrev input_info_test : ℕ → ContractInputInfo
input_info_test event = record {
  contract_descriptor = (condition_test event).contract_descriptor;
  oracles = record {
    public_keys = (51 ∷ []) ∷ (52 ∷ []) ∷ [];
    event_id = event ∷ [];
    threshold = 1;
  };
}

abbrev loan_input_test : LoanContractInput
loan_input_test = record {
  collateral_ratio = 150;
  liquidation_ratio = 125;
  interest_rate = 5;
  duration = 30;
  collateral = 500000;
  fee_rate = 2;
  contract_infos = input_info_test 71 ∷ input_info_test 72 ∷ [];
}

abbrev contract_input_test : ContractInput
contract_input_test = record {
  offer_collateral = 500000;
  accept_collateral = 0;
  fee_rate = 2;
  contract_infos = input_info_test 71 ∷ [];
}

abbrev announcements_test : ℕ → List OracleAnnouncement
announcements_test event = (condition_test event).oracle_announcements

abbrev sent_info : ℕ → ContractInfoInner
sent_info event = record {
  contract_descriptor = enumerated_contract_descriptor (
      record { outcome = 97 ∷ []; offer_payout = 500000 }
      ∷ record { outcome = 98 ∷ []; offer_payout = 0 }
      ∷ []);
  oracle_info = multi (record {
    threshold = 1;
    oracle_announcements = announcements_test event;
    oracle_params = none;
  });
}

abbrev offered_loan_test : OfferedLoanContract
offered_loan_test = record {
  offered_contract = record {
    id = 5 ∷ 6 ∷ [];
    is_offer_party = true;
    contract_info = condition_test 71 ∷ condition_test 72 ∷ [];
    counter_party = 4 ∷ [];
    offer_params = record {
      fund_pubkey = 3 ∷ [];
      change_script_pubkey = 20 ∷ 4 ∷ [];
      change_serial_id = 2;
      payout_script_pubkey = 20 ∷ 5 ∷ [];
      payout_serial_id = 1;
      inputs = [];
      input_amount = 0;
      collateral = 0;
    };
    total_collateral = 500000;
    funding_inputs = [];
    fund_output_serial_id = 3;
    fee_rate_per_vb = 2;
    cet_locktime = 30;
    refund_locktime = 100;
    keys_id = 1 ∷ [];
  };
  collateral_ratio = 150;
  liquidation_ratio = 125;
  interest_rate = 5;
  duration = 30;
  lender_hash = 16 ∷ [];
}

abbrev funding_input_test : FundingInput
funding_input_test = record {
  input_serial_id = 3;
  prev_tx = 2 ∷ [];
  prev_tx_vout = 0;
  sequence = 4294967295;
  max_witness_len = 107;
  redeem_script = [];
}

abbrev offered_test : OfferedContract
offered_test = record {
  id = 5 ∷ 6 ∷ [];
  is_offer_party = true;
  contract_info = condition_test 71 ∷ [];
  counter_party = 4 ∷ [];
  offer_params = record {
    fund_pubkey = 3 ∷ [];
    change_script_pubkey = 20 ∷ 4 ∷ [];
    change_serial_id = 2;
    payout_script_pubkey = 20 ∷ 5 ∷ [];
    payout_serial_id = 1;
    inputs =
        record {
          outpoint = record { txid = 7 ∷ 7 ∷ []; vout = 0 };
          max_witness_len = 107;
          redeem_script = [];
          serial_id = 3;
        }
        ∷ [];
    input_amount = 500428;
    collateral = 500000;
  };
  total_collateral = 500000;
  funding_inputs = funding_input_test ∷ [];
  fund_output_serial_id = 4;
  fee_rate_per_vb = 2;
  cet_locktime = 30;
  refund_locktime = 100;
  keys_id = 1 ∷ [];
}

abbrev message_of : OfferedContract → SerContractInfo → OfferDlc
message_of o info = record {
  protocol_version = 1;
  contract_flags = 0;
  chain_hash = bitcoin_chainhash;
  temporary_contract_id = 5 ∷ 6 ∷ [];
  contract_info = info;
  funding_pubkey = 3 ∷ [];
  payout_spk = 20 ∷ 5 ∷ [];
  payout_serial_id = 1;
  offer_collateral = o.offer_params.collateral;
  funding_inputs = o.funding_inputs;
  change_spk = 20 ∷ 4 ∷ [];
  change_serial_id = 2;
  fund_output_serial_id = o.fund_output_serial_id;
  fee_rate_per_vb = 2;
  cet_locktime = 30;
  refund_locktime = 100;
}

abbrev loan_message_test : OfferLoanDlc
loan_message_test = record {
  collateral_ratio = 150;
  liquidation_ratio = 125;
  interest_rate = 5;
  duration = 30;
  lender_hash = 16 ∷ [];
  offer_dlc =
      message_of offered_loan_test.offered_contract
        (disjoint_contract_info 500000 (sent_info 71 ∷ sent_info 72 ∷ []));
}

abbrev message_test : OfferDlc
message_test = message_of offered_test (single_contract_info 500000 (sent_info 71))

condition_test-IsReadable : (event : ℕ) → IsReadable 500000 (condition_test event)
unfolding all
condition_test-IsReadable event = record {
  payouts =
      record { outcome = 97 ∷ []; payout = record { offer = 500000; accept = 0 } }
      ∷ record { outcome = 98 ∷ []; payout = record { offer = 0; accept = 500000 } }
      ∷ [];
  is_enum = refl;
  add_up = (refl, (refl, tt));
  events = refl;
  small = omega arith;
  alone = λ x e. refl;
}

loan_offered :
    offer_loan_contract out_test curves_test drawn_test loan_input_test
      (announcements_test 71 ∷ announcements_test 72 ∷ [])
      60
      (4 ∷ [])
      7
    ≡ ok (offered_loan_test, loan_message_test)
unfolding offer_loan_contract offer_contract validate_oracles validate_infos validate_input
    validate_loan_input validate_fee_rate for_each get_latest_maturity_date info_of_input
    new_offered_contract offer_dlc_of offer_loan_dlc_of get_party_params get_lender_party_params
    get_half_common_fee get_common_fee add_utxo to_tx_input_info amount_add weight_to_fee
    checked_mul collect ser_outcome ser_oracles ser_descriptor ser_info ser_contract_info
    to_be_bytes all
loan_offered = refl

contract_offered :
    offer_contract out_test curves_test drawn_test contract_input_test
      (announcements_test 71 ∷ [])
      60
      (4 ∷ [])
    ≡ ok (offered_test, message_test)
unfolding offer_loan_contract offer_contract validate_oracles validate_infos validate_input
    validate_loan_input validate_fee_rate for_each get_latest_maturity_date info_of_input
    new_offered_contract offer_dlc_of offer_loan_dlc_of get_party_params get_lender_party_params
    get_half_common_fee get_common_fee add_utxo to_tx_input_info amount_add weight_to_fee
    checked_mul collect ser_outcome ser_oracles ser_descriptor ser_info ser_contract_info
    to_be_bytes all
contract_offered = refl

try_from_offer_loan_dlc-offer_loan_contract_example :
    try_from_offer_loan_dlc out_test curves_test loan_message_test (8 ∷ []) (9 ∷ [])
    ≡ ok (record offered_loan_test {
      offered_contract = seen_by (8 ∷ []) (9 ∷ []) offered_loan_test.offered_contract;
    })
try_from_offer_loan_dlc-offer_loan_contract_example =
    try_from_offer_loan_dlc-offer_loan_contract out_test curves_test (8 ∷ []) (9 ∷ []) drawn_test
      loan_input_test (announcements_test 71 ∷ announcements_test 72 ∷ []) 60 (4 ∷ []) 7
      offered_loan_test loan_message_test
      (condition_test-IsReadable 71, (condition_test-IsReadable 72, tt)) loan_offered

try_from_offer_dlc-offer_contract_example :
    try_from_offer_dlc out_test curves_test message_test (8 ∷ []) (9 ∷ [])
    ≡ ok (seen_by (8 ∷ []) (9 ∷ []) offered_test)
try_from_offer_dlc-offer_contract_example =
    try_from_offer_dlc-offer_contract out_test curves_test (8 ∷ []) (9 ∷ []) out_test-IsEncoding
      drawn_test contract_input_test (announcements_test 71 ∷ []) 60 (4 ∷ []) offered_test
      message_test (condition_test-IsReadable 71, tt) contract_offered

validate_loan_input_iff_example :
    (validate_loan_input loan_input_test ≡ ok tt) ↔ IsWithin loan_input_test
validate_loan_input_iff_example = validate_loan_input_iff loan_input_test
