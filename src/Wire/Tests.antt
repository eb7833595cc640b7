-- ===== src/Wire/Tests.antt =====
-- A loan's offer as bytes.
use p2p_btc_lending.Prelude.{◌≡◌, refl, [], ◌∷◌, some, ok, ◌++◌, true, false, arith}
use p2p_btc_lending.Dlc.Types.{Bytes, OutPoint, TxIn, TxOut, Transaction}
use p2p_btc_lending.Messages.{enum_event}
use p2p_btc_lending.Contract.Types.{
  OfferedLoanContract, ContractInfo, enum_descriptor, offered_loan,
}
use p2p_btc_lending.Storage.Prefix.{FitsState, serialize_contract, deserialize_contract}
use p2p_btc_lending.Wire.{Wire, ◌⊗◌, struct_wire}
use p2p_btc_lending.Wire.Numbers.{
  uint_wire, u8_wire, write_big_size, read_big_size, read_big_size-write_big_size,
}
use p2p_btc_lending.Dlc.Loan.{to_be_bytes}
use p2p_btc_lending.Wire.Vectors.{
  write_all, vec_wire, vec_u16_wire, option_wire, checked_wire, tlv_wire,
}
use p2p_btc_lending.Wire.Messages.{
  Crates, string_wire, bytes_wire, payout_wire, enum_payout_wire, tx_input_info_wire,
  party_params_wire, funding_input_wire, event_descriptor_wire, oracle_event_wire,
  oracle_announcement_wire,
}
use p2p_btc_lending.Wire.Contracts.{
  contract_descriptor_wire, contract_info_wire, offered_contract_wire, offered_loan_contract_wire,
  contract_codecs, deserialize_contract-contract_codecs,
}

abbrev short_wire : Wire Bytes
short_wire = vec_u16_wire u8_wire

abbrev out_point_wire : Wire OutPoint
out_point_wire =
    struct_wire (short_wire ⊗ uint_wire 4) (λ (o : OutPoint). (o.txid, o.vout))
      (λ p. record { txid = p.0; vout = p.1 }) (λ o. refl)

abbrev tx_in_wire : Wire TxIn
tx_in_wire =
    struct_wire (out_point_wire ⊗ short_wire ⊗ uint_wire 4 ⊗ vec_wire short_wire)
      (λ (i : TxIn). (i.previous_output, (i.script_sig, (i.sequence, i.witness))))
      (λ p. record {
        previous_output = p.0;
        script_sig = p.1.0;
        sequence = p.1.1.0;
        witness = p.1.1.1;
      })
      (λ i. refl)

abbrev tx_out_wire : Wire TxOut
tx_out_wire =
    struct_wire (uint_wire 8 ⊗ short_wire) (λ (o : TxOut). (o.value, o.script_pubkey))
      (λ p. record { value = p.0; script_pubkey = p.1 }) (λ o. refl)

abbrev transaction_wire : Wire Transaction
transaction_wire =
    struct_wire (uint_wire 4 ⊗ uint_wire 4 ⊗ vec_wire tx_in_wire ⊗ vec_wire tx_out_wire)
      (λ (t : Transaction). (t.version, (t.lock_time, (t.input, t.output))))
      (λ p. record { version = p.0; lock_time = p.1.0; input = p.1.1.0; output = p.1.1.1 })
      (λ t. refl)

abbrev crates_test : Crates
crates_test = record {
  is_utf8 = λ s. true;
  public_key = short_wire;
  x_only_public_key = short_wire;
  schnorr_signature = short_wire;
  ecdsa_signature = short_wire;
  adaptor_signature = short_wire;
  script = short_wire;
  out_point = out_point_wire;
  transaction = transaction_wire;
  optional_transaction = option_wire transaction_wire;
  negotiation_fields = short_wire;
  numerical_descriptor = short_wire;
  trie = short_wire;
  trie_with_difference = short_wire;
}

-- An id of 32 bytes.
abbrev id_test : Bytes
id_test =
    1 ∷ 2 ∷ 3 ∷ 4 ∷ 5 ∷ 6 ∷ 7 ∷ 8 ∷ 9 ∷ 10 ∷ 11 ∷ 12 ∷ 13 ∷ 14 ∷ 15 ∷ 16 ∷ 17 ∷ 18 ∷ 19 ∷ 20 ∷ 21
    ∷ 22 ∷ 23 ∷ 24 ∷ 25 ∷ 26 ∷ 27 ∷ 28 ∷ 29 ∷ 30 ∷ 31 ∷ 32 ∷ []

abbrev info_test : ContractInfo
info_test = record {
  contract_descriptor =
      enum_descriptor
        (record { outcome = 97 ∷ []; payout = record { offer = 500000; accept = 0 } } ∷ []);
  oracle_announcements =
      record {
        announcement_signature = 9 ∷ [];
        oracle_public_key = 51 ∷ [];
        oracle_event = record {
          oracle_nonces = (71 ∷ []) ∷ [];
          event_maturity_epoch = 40;
          event_descriptor = enum_event ((97 ∷ []) ∷ []);
          event_id = 71 ∷ [];
        };
      }
      ∷ [];
  threshold = 1;
}

abbrev loan_test : OfferedLoanContract
loan_test = record {
  offered_contract = record {
    id = id_test;
    is_offer_party = false;
    contract_info = info_test ∷ [];
    counter_party = 4 ∷ [];
    offer_params = record {
      fund_pubkey = 3 ∷ [];
      change_script_pubkey = 20 ∷ 4 ∷ [];
      change_serial_id = 2;
      payout_script_pubkey = 20 ∷ 5 ∷ [];
      payout_serial_id = 1;
      inputs = [];
      input_amount = 0;
      collateral = 0;
    };
    total_collateral = 500000;
    funding_inputs = [];
    fund_output_serial_id = 4;
    fee_rate_per_vb = 2;
    cet_locktime = 50;
    refund_locktime = 100;
    keys_id = id_test;
  };
  collateral_ratio = 150;
  liquidation_ratio = 125;
  interest_rate = 5;
  duration = 30;
  lender_hash = id_test;
}

loan_test-FitsState : FitsState (contract_codecs crates_test) (offered_loan loan_test)
unfolding contract_codecs offered_loan_contract_wire offered_contract_wire contract_info_wire
    contract_descriptor_wire oracle_announcement_wire oracle_event_wire event_descriptor_wire
    party_params_wire funding_input_wire tx_input_info_wire enum_payout_wire payout_wire string_wire
    bytes_wire vec_wire vec_u16_wire option_wire checked_wire tlv_wire to_be_bytes write_all
    write_big_size
loan_test-FitsState = ground arith

deserialize_contract-contract_codecs_example :
    deserialize_contract
      (contract_codecs crates_test)
      (serialize_contract (contract_codecs crates_test) (offered_loan loan_test))
    ≡ ok (offered_loan loan_test)
deserialize_contract-contract_codecs_example =
    deserialize_contract-contract_codecs crates_test (offered_loan loan_test) loan_test-FitsState

read_big_size-write_big_size_example :
    read_big_size (write_big_size 70000 ++ 9 ∷ []) ≡ some (70000, 9 ∷ [])
read_big_size-write_big_size_example = read_big_size-write_big_size 70000 (9 ∷ []) (omega arith)
