-- ===== src/Manager/Tests.antt =====
-- A manager that answers the same each time, with one loan on offer.
pub mod Runs
use p2p_btc_lending.Prelude.{
  ℕ, ◌≡◌, ◌≢◌, refl, Bool, true, false, List, [], ◌∷◌, Option, some, none, Result, ok, err,
}
use p2p_btc_lending.Dlc.Types.{Bytes, TxIn, Transaction}
use p2p_btc_lending.Dlc.Tests.{bitcoin_test, lender, borrower, funding, closing}
use p2p_btc_lending.Messages.{
  OfferLoanDlc, OfferDlc, AcceptDlc, AcceptLoanDlc, SignDlc, OracleAttestation,
  single_contract_info, enumerated_contract_descriptor, SerContractInfo, multi, OracleInfo,
}
use p2p_btc_lending.Contract.Types.{
  Error, secp_error, invalid_parameters, oracle_error, OfferedContract, OfferedLoanContract,
  AcceptedContract, SignedContract, FailedAcceptContract,
}
use p2p_btc_lending.Storage.Interface.{Codecs}
use p2p_btc_lending.Storage.{Store}
use p2p_btc_lending.Storage.Tests.{sled_test}
use p2p_btc_lending.Storage.Tests.Updates.{only, nothing, offered_test, accepted_test}
use p2p_btc_lending.Manager.World.{Manager, World}

abbrev pub loan_test : OfferedLoanContract
loan_test = record {
  offered_contract = offered_test;
  collateral_ratio = 150;
  liquidation_ratio = 125;
  interest_rate = 5;
  duration = 30;
  lender_hash = 8 ∷ [];
}

abbrev pub signed_test : SignedContract
signed_test = record {
  accepted_contract = accepted_test;
  adaptor_signatures = none;
  offer_refund_signature = [];
  funding_signatures = [];
  channel_id = none;
}

abbrev pub offer_msg : OfferLoanDlc
offer_msg = record {
  collateral_ratio = 150;
  liquidation_ratio = 125;
  interest_rate = 5;
  duration = 30;
  lender_hash = 8 ∷ [];
  offer_dlc = record {
    protocol_version = 1;
    contract_flags = 0;
    chain_hash = [];
    temporary_contract_id = 5 ∷ 6 ∷ [];
    contract_info = single_contract_info 500000 (record {
      contract_descriptor = enumerated_contract_descriptor [];
      oracle_info =
          multi (record { threshold = 0; oracle_announcements = []; oracle_params = none });
    });
    funding_pubkey = 2 ∷ [];
    payout_spk = 20 ∷ 3 ∷ [];
    payout_serial_id = 2;
    offer_collateral = 0;
    funding_inputs = [];
    change_spk = 20 ∷ 2 ∷ [];
    change_serial_id = 2;
    fund_output_serial_id = 4;
    fee_rate_per_vb = 2;
    cet_locktime = 50;
    refund_locktime = 100;
  };
}

-- The borrower's transaction, with a place for the lender's signature.
abbrev pub spend_test : Transaction
spend_test = record funding {
  input =
      record {
        previous_output = record { txid = 7 ∷ 7 ∷ []; vout = 0 };
        script_sig = [];
        sequence = 4294967295;
        witness = [] ∷ [] ∷ (9 ∷ []) ∷ [];
      }
      ∷ [];
}

abbrev pub accept_msg : AcceptLoanDlc
accept_msg = record {
  protocol_version = 1;
  temporary_contract_id = 5 ∷ 6 ∷ [];
  accept_collateral = 500000;
  funding_pubkey = 3 ∷ [];
  payout_spk = 20 ∷ 5 ∷ [];
  payout_serial_id = 1;
  funding_inputs = [];
  change_spk = 20 ∷ 4 ∷ [];
  change_serial_id = 3;
  cet_adaptor_signatures = [];
  refund_signature = [];
  negotiation_fields = none;
  escrow_txid = 7 ∷ 7 ∷ [];
  borrower_hash = 16 ∷ [];
  signed_escrow_spend_tx = spend_test;
  escrow_amount = 500428;
  escrow_spk = 1 ∷ [];
  collateral_spk = 3 ∷ [];
}

abbrev pub answer_test : SignDlc
answer_test = record {
  protocol_version = 1;
  contract_id = 2 ∷ 1 ∷ [];
  cet_adaptor_signatures = [];
  refund_signature = [];
  funding_signatures = [];
}

abbrev pub codecs_loan : Codecs
codecs_loan = record {
  offered_codec = nothing;
  offered_loan_codec = only loan_test;
  accepted_codec = only accepted_test;
  signed_codec = only signed_test;
  failed_accept_codec = nothing;
  failed_sign_codec = nothing;
  pre_closed_codec = nothing;
  closed_codec = nothing;
}

abbrev pub manager_test : Manager
manager_test = record {
  sled = sled_test;
  codecs = codecs_loan;
  bitcoin = bitcoin_test;
  get_transaction_confirmations = λ txid. ok 7;
  send_transaction = λ tx. ok tt;
  unix_time_now = 200;
  import_address = λ script. ok tt;
  sign_raw_transaction = λ tx. ok tx;
  get_party_params = λ collateral fee signer. ok (borrower, []);
  derive_signer_key_id = λ is_offer id. 1 ∷ [];
  derive_contract_signer = λ keys_id. ok (99 ∷ []);
  get_sig_for_tx_input = λ tx i script amount key. ok (44 ∷ []);
  get_attestation = λ key event. none;
  is_valid_attestation = λ a o. true;
  evm_key = ok tt;
  evm_provider = ok tt;
  get_receipt = λ call. ok tt;
  to_string = λ e. 69 ∷ [];
  stable_loans = λ hash. ok (500000, 77);
  lend_stable = λ hash amount. ok tt;
  claim_stable = λ preimage. ok tt;
  offer_loan_contract = λ input announcements peer preimage. ok (loan_test, offer_msg);
  validate_offer_loan_dlc = λ msg. ok tt;
  try_from_offer_loan_dlc = λ msg peer keys_id. ok loan_test;
  validate_offered_loan_contract = λ c. ok tt;
  accept_loan_contract = λ offer txid hash preimage. err secp_error;
  verify_accepted_and_sign_loan_contract = λ offer msg tx script. ok (signed_test, answer_test);
  verify_signed_contract = λ c msg. ok (signed_test, funding);
  get_signed_cet = λ c info adaptor as' signer. ok funding;
  get_signed_refund = λ c signer. ok closing.1;
}

-- A manager that refuses the contracts of accept messages.
abbrev pub manager_strict : Manager
manager_strict = record manager_test {
  verify_accepted_and_sign_loan_contract = λ offer msg tx script. err secp_error;
}

abbrev pub store_empty : Store sled_test
store_empty = record { contract_tree = []; preimage_tree = []; escrow_txid_tree = [] }

abbrev pub thirty_two : Bytes
thirty_two =
    1 ∷ 2 ∷ 3 ∷ 4 ∷ 5 ∷ 6 ∷ 7 ∷ 8 ∷ 1 ∷ 2 ∷ 3 ∷ 4 ∷ 5 ∷ 6 ∷ 7 ∷ 8 ∷ 1 ∷ 2 ∷ 3 ∷ 4 ∷ 5 ∷ 6 ∷ 7 ∷ 8
    ∷ 1 ∷ 2 ∷ 3 ∷ 4 ∷ 5 ∷ 6 ∷ 7 ∷ 8 ∷ []

abbrev pub sixteen : Bytes
sixteen = 0 ∷ 0 ∷ 0 ∷ 0 ∷ 0 ∷ 0 ∷ 0 ∷ 0 ∷ 0 ∷ 0 ∷ 0 ∷ 0 ∷ 0 ∷ 0 ∷ 0 ∷ 77 ∷ []

abbrev pub store_loan : Store sled_test
store_loan = record {
  contract_tree = (5 ∷ 6 ∷ [], 2 ∷ []) ∷ [];
  preimage_tree = (5 ∷ 6 ∷ [], sixteen) ∷ [];
  escrow_txid_tree = (5 ∷ 6 ∷ [], thirty_two) ∷ [];
}

abbrev pub world_of : (m : Manager) → Store m.sled → World m
world_of m s = record { store = s; sent = []; imported = []; evm_calls = [] }
