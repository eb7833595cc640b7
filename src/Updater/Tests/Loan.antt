-- ===== src/Updater/Tests/Loan.antt =====
-- The borrower's acceptance of the loan, as it runs.
use p2p_btc_lending.Prelude.{List}
use p2p_btc_lending.Dlc.Types.{Bytes}
use p2p_btc_lending.Dlc.Tests.{bitcoin_test}
use p2p_btc_lending.Updater.Tests.{secp_test}
use p2p_btc_lending.Prelude.{◌≡◌, refl, [], ◌∷◌, none, ok, bytes_eq, for_each, collect, all, keep}
use p2p_btc_lending.Dlc.Types.{Transaction}
use p2p_btc_lending.Dlc.Signing.{
  get_sig_for_tx_input, get_raw_sig_for_tx_input, get_sig_hash_msg,
  create_cet_adaptor_sig_from_point, finalize_sig, get_adaptor_point_from_oracle_info,
  get_oracle_sig_point, oracle_sig_points, schnorr_pubkey_to_pubkey, schnorrsig_compute_sig_point,
}
use p2p_btc_lending.Messages.{AcceptLoanDlc}
use p2p_btc_lending.Contract.Types.{AcceptedLoanContract, enum}
use p2p_btc_lending.Contract.Info.{
  get_payouts, descriptor_payouts, get_adaptor_info, get_oracle_infos, signed_descriptor,
}
use p2p_btc_lending.Updater.{get_party_params, get_half_common_fee, add_utxo, to_tx_input_info}
use p2p_btc_lending.Updater.Accept.{add_signatures, make_signatures}
use p2p_btc_lending.Updater.AcceptLoan.{
  accept_loan_contract, sign_collateral, accept_loan_contract_internal,
  get_accept_loan_contract_msg,
}
use p2p_btc_lending.Updater.Handshake.Loan.{Agreed, accept_loan_contract-Agreed}
use p2p_btc_lending.Dlc.Loan.{
  create_collateral_transaction, create_loan_expiration_dlc_transactions,
}
use p2p_btc_lending.Dlc.Checked.{amount_sub, checked_mul, amount_add, checked_add}
use p2p_btc_lending.Dlc.Util.{
  get_common_fee, discard_dust, find_output, get_output_for_script_pubkey, get_sequence,
  weight_to_fee,
}
use p2p_btc_lending.Dlc.Cets.{
  create_cet, create_cets, create_cets_and_refund_tx, create_refund_transaction,
  has_proper_outcomes,
}
use p2p_btc_lending.Dlc.Funding.{get_fund_output, get_fund_output_at}
use p2p_btc_lending.Dlc.Script.{
  into_script, make_collateral_redeemscript, make_loan_escrow_after_codesep_script,
  make_loan_funding_redeemscript,
}
use p2p_btc_lending.Trie.{
  advance, combinations, combinations_from, count_from, find_cursor, first_combination, next,
}
use p2p_btc_lending.Contract.Enum
use p2p_btc_lending.Contract.Enum.{Spending}
use p2p_btc_lending.Contract.Enum.Agreement.{SitsAt-whole, verify_adaptor_info-signatures}
use p2p_btc_lending.Updater.{get_tx_input_infos}
use p2p_btc_lending.Updater.Handshake.Params.{get_tx_input_infos-get_party_params}
use p2p_btc_lending.Contract.Types.{EnumerationPayout}
use p2p_btc_lending.Dlc.Tests.{closing}
use p2p_btc_lending.Updater.Tests.{
  secp_test-IsSound, secp_test-IsHashing, out_test, out_test-IsEncoding, out_test-IsSegwit,
  loan_offer, lender_test,
}

abbrev collateral_test : Transaction
collateral_test = record {
  version = 2;
  lock_time = 0;
  input =
      record {
        previous_output = record { txid = 7 ∷ 7 ∷ []; vout = 0 };
        script_sig = [];
        sequence = 4294967295;
        witness =
            []
            ∷ (77 ∷ [])
            ∷ (48 ∷ 3 ∷ 500428 ∷ 4294967295 ∷ 200 ∷ 200 ∷ 96 ∷ 200 ∷ 200 ∷ 1 ∷ 16 ∷ 200 ∷ 1 ∷ 2
                ∷ 200 ∷ 200 ∷ 1 ∷ [])
            ∷ (1 ∷ 3 ∷ 200 ∷ 200 ∷ 200 ∷ 200 ∷ 200 ∷ 4 ∷ 1677737984 ∷ 200 ∷ 200 ∷ 200 ∷ 200 ∷ 200
                ∷ 96 ∷ 200 ∷ 200 ∷ 1 ∷ 16 ∷ 200 ∷ 1 ∷ 2 ∷ 200 ∷ 200 ∷ [])
            ∷ [];
      }
      ∷ [];
  output = record { value = 500262; script_pubkey = 0 ∷ 28 ∷ [] } ∷ [];
}

abbrev accepted_loan : AcceptedLoanContract
accepted_loan = record {
  offered_loan_contract = loan_offer;
  accept_params = record {
    fund_pubkey = 3 ∷ [];
    change_script_pubkey = 20 ∷ 4 ∷ [];
    change_serial_id = 2;
    payout_script_pubkey = 20 ∷ 5 ∷ [];
    payout_serial_id = 1;
    inputs =
        record {
          outpoint = record { txid = 7 ∷ 7 ∷ []; vout = 0 };
          max_witness_len = 107;
          redeem_script = [];
          serial_id = 3;
        }
        ∷ [];
    input_amount = 500428;
    collateral = 500000;
  };
  funding_inputs =
      record {
        input_serial_id = 3;
        prev_tx = 2 ∷ [];
        prev_tx_vout = 0;
        sequence = 4294967295;
        max_witness_len = 107;
        redeem_script = [];
      }
      ∷ [];
  adaptor_infos = enum ∷ enum ∷ [];
  adaptor_signatures = none;
  accept_refund_signature =
      3 ∷ 500262 ∷ 4294967294 ∷ 1 ∷ 2 ∷ 200 ∷ 1 ∷ 3 ∷ 82 ∷ 200 ∷ 200 ∷ 200 ∷ 200 ∷ 200 ∷ 200 ∷ 200
      ∷ 200 ∷ 200 ∷ 200 ∷ 200 ∷ 200 ∷ 200 ∷ 200 ∷ 96 ∷ 200 ∷ 200 ∷ 1 ∷ 8 ∷ 200 ∷ 200 ∷ 200 ∷ [];
  dlc_transactions = record {
    fund = record {
      version = 2;
      lock_time = 0;
      input =
          record {
            previous_output = record { txid = 7 ∷ 7 ∷ []; vout = 0 };
            script_sig = [];
            sequence = 4294967295;
            witness = [];
          }
          ∷ [];
      output = record { value = 500262; script_pubkey = 0 ∷ 28 ∷ [] } ∷ [];
    };
    cets =
        record {
          version = 2;
          lock_time = 50;
          input =
              record {
                previous_output = record { txid = 7 ∷ 7 ∷ []; vout = 0 };
                script_sig = [];
                sequence = 4294967294;
                witness = [];
              }
              ∷ [];
          output = record { value = 500000; script_pubkey = 20 ∷ 3 ∷ [] } ∷ [];
        }
        ∷ record {
          version = 2;
          lock_time = 50;
          input =
              record {
                previous_output = record { txid = 7 ∷ 7 ∷ []; vout = 0 };
                script_sig = [];
                sequence = 4294967294;
                witness = [];
              }
              ∷ [];
          output = record { value = 500000; script_pubkey = 20 ∷ 5 ∷ [] } ∷ [];
        }
        ∷ record {
          version = 2;
          lock_time = 0;
          input =
              record {
                previous_output = record { txid = 7 ∷ 7 ∷ []; vout = 0 };
                script_sig = [];
                sequence = 4294967294;
                witness = [];
              }
              ∷ [];
          output = record { value = 500000; script_pubkey = 20 ∷ 3 ∷ [] } ∷ [];
        }
        ∷ record {
          version = 2;
          lock_time = 0;
          input =
              record {
                previous_output = record { txid = 7 ∷ 7 ∷ []; vout = 0 };
                script_sig = [];
                sequence = 4294967294;
                witness = [];
              }
              ∷ [];
          output = record { value = 500000; script_pubkey = 20 ∷ 5 ∷ [] } ∷ [];
        }
        ∷ [];
    refund = record {
      version = 2;
      lock_time = 100;
      input =
          record {
            previous_output = record { txid = 7 ∷ 7 ∷ []; vout = 0 };
            script_sig = [];
            sequence = 4294967294;
            witness = [];
          }
          ∷ [];
      output = record { value = 500000; script_pubkey = 20 ∷ 5 ∷ [] } ∷ [];
    };
    funding_script_pubkey =
        1 ∷ 2 ∷ 200 ∷ 1 ∷ 3 ∷ 82 ∷ 200 ∷ 200 ∷ 200 ∷ 200 ∷ 200 ∷ 200 ∷ 200 ∷ 200 ∷ 200 ∷ 200 ∷ 200
        ∷ 200 ∷ 200 ∷ 200 ∷ 96 ∷ 200 ∷ 200 ∷ 1 ∷ 8 ∷ 200 ∷ 200 ∷ 200 ∷ [];
  };
  escrow_txid = 7 ∷ 7 ∷ [];
  borrower_hash = 16 ∷ [];
  signed_escrow_spend_tx = collateral_test;
}

abbrev accept_message : AcceptLoanDlc
accept_message = record {
  protocol_version = 1;
  temporary_contract_id = 5 ∷ 6 ∷ [];
  accept_collateral = 500000;
  funding_pubkey = 3 ∷ [];
  payout_spk = 20 ∷ 5 ∷ [];
  payout_serial_id = 1;
  funding_inputs =
      record {
        input_serial_id = 3;
        prev_tx = 2 ∷ [];
        prev_tx_vout = 0;
        sequence = 4294967295;
        max_witness_len = 107;
        redeem_script = [];
      }
      ∷ [];
  change_spk = 20 ∷ 4 ∷ [];
  change_serial_id = 2;
  cet_adaptor_signatures =
      (2 ∷ 71 ∷ 3 ∷ 500262 ∷ 4294967294 ∷ 1 ∷ 2 ∷ 200 ∷ 1 ∷ 3 ∷ 82 ∷ 200 ∷ 200 ∷ 200 ∷ 200 ∷ 200
        ∷ 200 ∷ 200 ∷ 200 ∷ 200 ∷ 200 ∷ 200 ∷ 200 ∷ 200 ∷ 200 ∷ 96 ∷ 200 ∷ 200 ∷ 1 ∷ 8 ∷ 200 ∷ 200
        ∷ 200 ∷ [])
      ∷ (2 ∷ 71 ∷ 1 ∷ 3 ∷ 500262 ∷ 4294967294 ∷ 1 ∷ 2 ∷ 200 ∷ 1 ∷ 3 ∷ 82 ∷ 200 ∷ 200 ∷ 200 ∷ 200
          ∷ 200 ∷ 200 ∷ 200 ∷ 200 ∷ 200 ∷ 200 ∷ 200 ∷ 200 ∷ 200 ∷ 200 ∷ 96 ∷ 200 ∷ 200 ∷ 1 ∷ 8 ∷ 200
          ∷ 200 ∷ 200 ∷ [])
      ∷ (2 ∷ 71 ∷ 3 ∷ 500262 ∷ 4294967294 ∷ 1 ∷ 2 ∷ 200 ∷ 1 ∷ 3 ∷ 82 ∷ 200 ∷ 200 ∷ 200 ∷ 200 ∷ 200
          ∷ 200 ∷ 200 ∷ 200 ∷ 200 ∷ 200 ∷ 200 ∷ 200 ∷ 200 ∷ 200 ∷ 96 ∷ 200 ∷ 200 ∷ 1 ∷ 8 ∷ 200 ∷ 200
          ∷ 200 ∷ [])
      ∷ (2 ∷ 71 ∷ 1 ∷ 3 ∷ 500262 ∷ 4294967294 ∷ 1 ∷ 2 ∷ 200 ∷ 1 ∷ 3 ∷ 82 ∷ 200 ∷ 200 ∷ 200 ∷ 200
          ∷ 200 ∷ 200 ∷ 200 ∷ 200 ∷ 200 ∷ 200 ∷ 200 ∷ 200 ∷ 200 ∷ 200 ∷ 96 ∷ 200 ∷ 200 ∷ 1 ∷ 8 ∷ 200
          ∷ 200 ∷ 200 ∷ [])
      ∷ (2 ∷ 72 ∷ 3 ∷ 500262 ∷ 4294967294 ∷ 1 ∷ 2 ∷ 200 ∷ 1 ∷ 3 ∷ 82 ∷ 200 ∷ 200 ∷ 200 ∷ 200 ∷ 200
          ∷ 200 ∷ 200 ∷ 200 ∷ 200 ∷ 200 ∷ 200 ∷ 200 ∷ 200 ∷ 200 ∷ 96 ∷ 200 ∷ 200 ∷ 1 ∷ 8 ∷ 200 ∷ 200
          ∷ 200 ∷ [])
      ∷ (2 ∷ 72 ∷ 1 ∷ 3 ∷ 500262 ∷ 4294967294 ∷ 1 ∷ 2 ∷ 200 ∷ 1 ∷ 3 ∷ 82 ∷ 200 ∷ 200 ∷ 200 ∷ 200
          ∷ 200 ∷ 200 ∷ 200 ∷ 200 ∷ 200 ∷ 200 ∷ 200 ∷ 200 ∷ 200 ∷ 200 ∷ 96 ∷ 200 ∷ 200 ∷ 1 ∷ 8 ∷ 200
          ∷ 200 ∷ 200 ∷ [])
      ∷ (2 ∷ 72 ∷ 3 ∷ 500262 ∷ 4294967294 ∷ 1 ∷ 2 ∷ 200 ∷ 1 ∷ 3 ∷ 82 ∷ 200 ∷ 200 ∷ 200 ∷ 200 ∷ 200
          ∷ 200 ∷ 200 ∷ 200 ∷ 200 ∷ 200 ∷ 200 ∷ 200 ∷ 200 ∷ 200 ∷ 96 ∷ 200 ∷ 200 ∷ 1 ∷ 8 ∷ 200 ∷ 200
          ∷ 200 ∷ [])
      ∷ (2 ∷ 72 ∷ 1 ∷ 3 ∷ 500262 ∷ 4294967294 ∷ 1 ∷ 2 ∷ 200 ∷ 1 ∷ 3 ∷ 82 ∷ 200 ∷ 200 ∷ 200 ∷ 200
          ∷ 200 ∷ 200 ∷ 200 ∷ 200 ∷ 200 ∷ 200 ∷ 200 ∷ 200 ∷ 200 ∷ 200 ∷ 96 ∷ 200 ∷ 200 ∷ 1 ∷ 8 ∷ 200
          ∷ 200 ∷ 200 ∷ [])
      ∷ [];
  refund_signature =
      3 ∷ 500262 ∷ 4294967294 ∷ 1 ∷ 2 ∷ 200 ∷ 1 ∷ 3 ∷ 82 ∷ 200 ∷ 200 ∷ 200 ∷ 200 ∷ 200 ∷ 200 ∷ 200
      ∷ 200 ∷ 200 ∷ 200 ∷ 200 ∷ 200 ∷ 200 ∷ 200 ∷ 96 ∷ 200 ∷ 200 ∷ 1 ∷ 8 ∷ 200 ∷ 200 ∷ 200 ∷ [];
  negotiation_fields = none;
  escrow_txid = 7 ∷ 7 ∷ [];
  borrower_hash = 16 ∷ [];
  signed_escrow_spend_tx = collateral_test;
  escrow_amount = 500428;
  escrow_spk = 200 ∷ 200 ∷ 96 ∷ 200 ∷ 200 ∷ 1 ∷ 16 ∷ 200 ∷ 1 ∷ 2 ∷ 200 ∷ 200 ∷ [];
  collateral_spk =
      1 ∷ 2 ∷ 200 ∷ 1 ∷ 3 ∷ 82 ∷ 200 ∷ 200 ∷ 200 ∷ 200 ∷ 200 ∷ 200 ∷ 200 ∷ 200 ∷ 200 ∷ 200 ∷ 200
      ∷ 200 ∷ 200 ∷ 200 ∷ 96 ∷ 200 ∷ 200 ∷ 1 ∷ 8 ∷ 200 ∷ 200 ∷ 200 ∷ [];
}

accepted_run :
    accept_loan_contract out_test loan_offer (7 ∷ 7 ∷ []) (16 ∷ []) (77 ∷ [])
    ≡ ok (accepted_loan, accept_message)
unfolding accept_loan_contract sign_collateral create_collateral_transaction amount_sub
    get_sig_for_tx_input get_raw_sig_for_tx_input get_sig_hash_msg get_party_params
    get_half_common_fee get_common_fee checked_mul amount_add for_each add_utxo to_tx_input_info
    get_payouts descriptor_payouts create_loan_expiration_dlc_transactions Enum.at_selector
    Enum.get_adaptor_info Enum.get_adaptor_signatures Enum.get_payouts Enum.iter_outcomes
    Enum.outcome_messages Enum.push_signature get_adaptor_info get_oracle_infos signed_descriptor
    create_cet create_cets create_cets_and_refund_tx create_refund_transaction has_proper_outcomes
    checked_add get_fund_output get_fund_output_at into_script make_collateral_redeemscript
    make_loan_escrow_after_codesep_script make_loan_funding_redeemscript
    create_cet_adaptor_sig_from_point finalize_sig get_adaptor_point_from_oracle_info
    get_oracle_sig_point oracle_sig_points schnorr_pubkey_to_pubkey schnorrsig_compute_sig_point
    discard_dust find_output get_output_for_script_pubkey get_sequence weight_to_fee collect all
    keep bytes_eq advance combinations combinations_from count_from find_cursor first_combination
    next accept_loan_contract_internal add_signatures get_accept_loan_contract_msg make_signatures
accepted_run = refl

accept_loan_contract-Agreed_example : Agreed out_test lender_test accepted_loan accept_message
accept_loan_contract-Agreed_example =
    accept_loan_contract-Agreed out_test secp_test-IsSound secp_test-IsHashing out_test-IsEncoding
      out_test-IsSegwit lender_test loan_offer ((_, refl), ((_, refl), tt)) refl refl (7 ∷ 7 ∷ [])
      (16 ∷ []) (77 ∷ []) accepted_loan accept_message accepted_run

abbrev spending_test : Spending
spending_test = record {
  oracle_infos =
      record { public_key = 51 ∷ []; nonces = (71 ∷ []) ∷ [] }
      ∷ record { public_key = 52 ∷ []; nonces = (71 ∷ 1 ∷ []) ∷ [] }
      ∷ [];
  threshold = 1;
  funding_script_pubkey = 3 ∷ [];
  fund_output_value = 500262;
}

abbrev outcomes_test : List EnumerationPayout
outcomes_test =
    record { outcome = 97 ∷ []; payout = record { offer = 500000; accept = 0 } }
    ∷ record { outcome = 98 ∷ []; payout = record { offer = 0; accept = 500000 } }
    ∷ []

abbrev signatures_test : List Bytes
signatures_test =
    (2 ∷ 71 ∷ 3 ∷ 500262 ∷ 4294967294 ∷ 3 ∷ [])
    ∷ (2 ∷ 71 ∷ 1 ∷ 3 ∷ 500262 ∷ 4294967294 ∷ 3 ∷ [])
    ∷ (2 ∷ 71 ∷ 3 ∷ 500262 ∷ 4294967294 ∷ 3 ∷ [])
    ∷ (2 ∷ 71 ∷ 1 ∷ 3 ∷ 500262 ∷ 4294967294 ∷ 3 ∷ [])
    ∷ []

signatures_run :
    Enum.get_adaptor_signatures bitcoin_test secp_test outcomes_test spending_test closing.0
      (3 ∷ [])
    ≡ ok signatures_test
unfolding Enum.get_adaptor_signatures Enum.iter_outcomes Enum.outcome_messages Enum.push_signature
    Enum.at_selector combinations combinations_from count_from find_cursor first_combination advance
    next for_each get_adaptor_point_from_oracle_info oracle_sig_points get_oracle_sig_point
    schnorrsig_compute_sig_point schnorr_pubkey_to_pubkey collect create_cet_adaptor_sig_from_point
    get_sig_hash_msg
signatures_run = refl

verify_adaptor_info-signatures_example :
    Enum.verify_adaptor_info bitcoin_test secp_test outcomes_test spending_test closing.0
      signatures_test
      (3 ∷ [])
      0
    ≡ ok 4
verify_adaptor_info-signatures_example =
    verify_adaptor_info-signatures bitcoin_test secp_test secp_test-IsSound spending_test closing.0
      (3 ∷ []) signatures_test 0 outcomes_test signatures_test signatures_run
      (SitsAt-whole signatures_test)

party_run :
    get_party_params out_test 500000 2 (3 ∷ [])
    ≡ ok (accepted_loan.accept_params, accepted_loan.funding_inputs)
unfolding get_party_params get_half_common_fee get_common_fee weight_to_fee checked_mul amount_add
    for_each add_utxo to_tx_input_info
party_run = refl

get_tx_input_infos-get_party_params_example :
    (get_tx_input_infos out_test accepted_loan.funding_inputs
      ≡ ok (accepted_loan.accept_params.inputs, accepted_loan.accept_params.input_amount))
    × (accepted_loan.accept_params.fund_pubkey ≡ 3 ∷ [])
    × (accepted_loan.accept_params.collateral ≡ 500000)
get_tx_input_infos-get_party_params_example =
    get_tx_input_infos-get_party_params out_test out_test-IsEncoding 500000 2 (3 ∷ [])
      accepted_loan.accept_params accepted_loan.funding_inputs party_run
