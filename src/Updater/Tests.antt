-- ===== src/Updater/Tests.antt =====
-- A loan whose two conditions are enumerations, and libraries whose signatures are the signed bytes.
pub mod Loan
pub mod Offer
use p2p_btc_lending.Prelude.{
  ℕ, ◌+◌, ◌≡◌, refl, ap, true, false, List, [], ◌∷◌, ◌++◌, Option, some, none, Result, ok, err,
  get_elem?, bytes_eq, bytes_eq_refl, map, for_each, collect, all, keep,
}
use p2p_btc_lending.Dlc.Types.{Bytes, TxIn, TxOut, Transaction}
use p2p_btc_lending.Dlc.Tests.{bitcoin_test, lender, spending}
use p2p_btc_lending.Dlc.Signing.{
  Secp, get_sig_for_tx_input, get_raw_sig_for_tx_input, get_sig_hash_msg,
  create_cet_adaptor_sig_from_point, finalize_sig, get_adaptor_point_from_oracle_info,
  get_oracle_sig_point, oracle_sig_points, schnorr_pubkey_to_pubkey, schnorrsig_compute_sig_point,
}
use p2p_btc_lending.Dlc.Signing.Schemes.{IsSound, IsHashing}
use p2p_btc_lending.Messages.{AcceptLoanDlc, enum_event}
use p2p_btc_lending.Contract.Types.{
  Error, ContractInfo, AcceptedLoanContract, OfferedLoanContract, enum, enum_descriptor,
  oracle_error,
}
use p2p_btc_lending.Contract.Info.{
  Numerical, get_payouts, descriptor_payouts, get_adaptor_info, get_oracle_infos, signed_descriptor,
}
use p2p_btc_lending.Updater.{
  Outside, get_party_params, get_half_common_fee, add_utxo, to_tx_input_info,
}
use p2p_btc_lending.Updater.Accept.{add_signatures, make_signatures}
use p2p_btc_lending.Updater.AcceptLoan.{
  accept_loan_contract, sign_collateral, accept_loan_contract_internal,
  get_accept_loan_contract_msg,
}
use p2p_btc_lending.Updater.Handshake.Params.{IsEncoding}
use p2p_btc_lending.Updater.Handshake.Transactions.{IsSegwit}
use p2p_btc_lending.Updater.Handshake.Lender.{Lender}
use p2p_btc_lending.Updater.Handshake.Loan.{Agreed, accept_loan_contract-Agreed}
use p2p_btc_lending.Dlc.Loan.{
  create_collateral_transaction, create_loan_expiration_dlc_transactions,
}
use p2p_btc_lending.Dlc.Checked.{amount_sub, checked_mul, amount_add, checked_add}
use p2p_btc_lending.Dlc.Util.{
  get_common_fee, discard_dust, find_output, get_output_for_script_pubkey, get_sequence,
  weight_to_fee,
}
use p2p_btc_lending.Dlc.Cets.{
  create_cet, create_cets, create_cets_and_refund_tx, create_refund_transaction,
  has_proper_outcomes,
}
use p2p_btc_lending.Dlc.Funding.{get_fund_output, get_fund_output_at}
use p2p_btc_lending.Dlc.Script.{
  into_script, make_collateral_redeemscript, make_loan_escrow_after_codesep_script,
  make_loan_funding_redeemscript,
}
use p2p_btc_lending.Trie.{
  advance, combinations, combinations_from, count_from, find_cursor, first_combination, next,
}
use p2p_btc_lending.Contract.Enum

abbrev pub hash_input : Option TxIn → Bytes → ℕ → Option Bytes
hash_input none script value = none
hash_input (some i) script value = some (value ∷ i.sequence ∷ script)

-- A signature is the message with the key.
abbrev pub secp_test : Secp
secp_test = record {
  p2wsh_signature_hash = λ tx i script value. hash_input (get_elem? tx.input i) script value;
  sign_ecdsa_low_r = λ msg sk. sk ++ msg;
  verify_ecdsa = λ msg sig pk. bytes_eq sig (pk ++ msg);
  serialize_der = λ sig. 48 ∷ sig;
  public_key = λ sk. sk;
  encrypt = λ msg sk point. point ++ sk ++ msg;
  verify_adaptor = λ sig msg pk point. bytes_eq sig (point ++ pk ++ msg);
  decrypt = λ sig secret. none;
  public_key_from_slice = λ bs. some bs;
  x_only_from_slice = λ bs. some bs;
  secret_key_from_slice = λ bs. some bs;
  combine_keys = λ keys. get_elem? keys 0;
  mul_tweak = λ point scalar. some (scalar ++ point);
  add_tweak = λ x y. some (x ++ y);
  scalar_from_be_bytes = λ bs. some bs;
  bip340_hash = λ bs. bs;
}

pub secp_test-IsSound : IsSound secp_test
secp_test-IsSound = record {
  ecdsa = λ msg sk. bytes_eq_refl (sk ++ msg);
  adaptor = λ msg sk point. bytes_eq_refl (point ++ sk ++ msg);
}

pub secp_test-IsHashing : IsHashing secp_test
secp_test-IsHashing = record {
  hashes =
      λ tx i x script value e. (value ∷ x.sequence ∷ script, ap (λ o. hash_input o script value) e);
}

-- No condition is numerical.
abbrev pub numericals_test : Numerical
numericals_test = record {
  get_payouts = λ n total. err oracle_error;
  get_adaptor_info = λ n total spending points cets sk start. err oracle_error;
  verify_and_get_adaptor_info = λ n total spending points cets sigs pk start. err oracle_error;
  sign = λ trie spending points cets sk. err oracle_error;
  verify = λ trie spending points cets sigs pk. err oracle_error;
  to_string = λ n. n ∷ [];
}

-- The transaction that every id has: the escrow, and the wallet's coin.
abbrev pub known_test : Transaction
known_test = spending 0 500428 (0 ∷ 24 ∷ [])

abbrev pub out_test : Outside
out_test = record {
  bitcoin = bitcoin_test;
  secp = secp_test;
  numericals = numericals_test;
  consensus_encode = λ tx. tx.version ∷ [];
  consensus_decode = λ bs. some known_test;
  get_transaction = λ txid. ok known_test;
  get_new_address = ok (20 ∷ 5 ∷ []);
  get_new_change_address = ok (20 ∷ 4 ∷ []);
  get_utxos_for_amount = λ amount fee_rate.
      ok (record { outpoint = record { txid = 9 ∷ []; vout = 0 }; redeem_script = [] } ∷ []);
  serial_id = λ i. i + 1;
  derive_contract_signer = λ keys_id. ok (3 ∷ []);
}

pub out_test-IsEncoding : IsEncoding out_test
out_test-IsEncoding = record { decode-encode = λ txid t e. cc e }

pub out_test-IsSegwit : IsSegwit bitcoin_test
out_test-IsSegwit = record { same_txid = λ tx w. refl }

-- A condition with two outcomes and two oracles, of which one is enough.
abbrev pub condition_test : ℕ → ContractInfo
condition_test event = record {
  contract_descriptor = enum_descriptor (
      record { outcome = 97 ∷ []; payout = record { offer = 500000; accept = 0 } }
      ∷ record { outcome = 98 ∷ []; payout = record { offer = 0; accept = 500000 } }
      ∷ []);
  oracle_announcements =
      record {
        announcement_signature = [];
        oracle_public_key = 51 ∷ [];
        oracle_event = record {
          oracle_nonces = (event ∷ []) ∷ [];
          event_maturity_epoch = 40;
          event_descriptor = enum_event ((97 ∷ []) ∷ (98 ∷ []) ∷ []);
          event_id = event ∷ [];
        };
      }
      ∷ record {
        announcement_signature = [];
        oracle_public_key = 52 ∷ [];
        oracle_event = record {
          oracle_nonces = (event ∷ 1 ∷ []) ∷ [];
          event_maturity_epoch = 40;
          event_descriptor = enum_event ((97 ∷ []) ∷ (98 ∷ []) ∷ []);
          event_id = event ∷ [];
        };
      }
      ∷ [];
  threshold = 1;
}

abbrev pub loan_offer : OfferedLoanContract
loan_offer = record {
  offered_contract = record {
    id = 5 ∷ 6 ∷ [];
    is_offer_party = false;
    contract_info = condition_test 71 ∷ condition_test 72 ∷ [];
    counter_party = 4 ∷ [];
    offer_params = lender;
    total_collateral = 500000;
    funding_inputs = [];
    fund_output_serial_id = 4;
    fee_rate_per_vb = 2;
    cet_locktime = 50;
    refund_locktime = 100;
    keys_id = 1 ∷ [];
  };
  collateral_ratio = 150;
  liquidation_ratio = 125;
  interest_rate = 5;
  duration = 30;
  lender_hash = 8 ∷ [];
}

abbrev pub lender_test : Lender
lender_test = record {
  derive_contract_signer = λ keys_id. ok (2 ∷ []);
  is_offer_party = true;
  counter_party = 6 ∷ [];
  keys_id = 2 ∷ [];
  own = 2 ∷ [];
  witness = (44 ∷ []) ∷ [];
}
