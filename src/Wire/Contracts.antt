-- ===== src/Wire/Contracts.antt =====
-- How contracts are written and read: stable-borrow-cli/crates/dlc-manager/src/contract/ser.rs.
use p2p_btc_lending.Prelude.{
  ℕ, ◌≡◌, ◌<◌, ◌-◌, ◌^◌, refl, ap, sym, ◌∙◌, ok, ltb, true, false, arith, List, [], ◌∷◌, ◌++◌,
  Option, none, some, ◌==◌, if◌then◌else◌,
}
use mathlib.Core.List.{append-nil}
use p2p_btc_lending.Prelude.Int.{ℤ, pos, negsuc}
use p2p_btc_lending.Dlc.Types.{Bytes, DlcTransactions}
use p2p_btc_lending.Messages.{OracleAttestation}
use p2p_btc_lending.Contract.Types.{
  EnumerationPayout, ContractDescriptor, enum_descriptor, numerical_descriptor, ContractInfo,
  OfferedContract, OfferedLoanContract, AdaptorInfo, enum, numerical, numerical_with_difference,
  AcceptedContract, SignedContract, FailedAcceptContract, FailedSignContract, PreClosedContract,
  ClosedContract, Contract,
}
use p2p_btc_lending.Storage.Interface.{Codec, Codecs}
use p2p_btc_lending.Storage.Prefix.{
  FitsState, serialize_contract, deserialize_contract, deserialize_contract-serialize_contract,
}
use p2p_btc_lending.Wire.{Wire, ◌⊗◌, struct_wire, fixed_wire, then_read, then_read-some}
use p2p_btc_lending.Wire.Numbers.{uint_wire, bool_wire}
use p2p_btc_lending.Wire.Vectors.{vec_wire, option_wire}
use p2p_btc_lending.Wire.Messages.{
  Crates, string_wire, enum_payout_wire, party_params_wire, funding_input_wire,
  oracle_announcement_wire, oracle_attestation_wire, accept_dlc_wire, sign_dlc_wire,
  funding_signatures_wire,
}

-- The variant's number, then its field.
abbrev tagged : {A : Type 0} → ℕ → Wire A → A → Bytes
tagged tag w a = tag ∷ w.write a

abbrev build_with : {A B : Type 0} → Wire A → (A → B) → Bytes → Option (B × Bytes)
build_with w build bs = then_read (w.read bs) (λ a r. some (build a, r))

-- `write_signed_amount` and `read_signed_amount`: 64 bits in two's complement
abbrev two_63 : ℕ
two_63 = 9223372036854775808

abbrev bits_of : ℤ → ℕ
bits_of (pos n) = n
bits_of (negsuc n) = 18446744073709551615 - n

abbrev signed_of_bits : ℕ → ℤ
signed_of_bits n = if ltb n two_63 then pos n else negsuc (18446744073709551615 - n)

abbrev SignedFits : ℤ → Type 0
SignedFits (pos n) = n < two_63
SignedFits (negsuc n) = n < two_63

pub signed_of_bits-bits_of : (z : ℤ) → SignedFits z → signed_of_bits (bits_of z) ≡ z
signed_of_bits-bits_of (pos n) h = let small : ltb n two_63 ≡ true = ground arith in rw small refl
signed_of_bits-bits_of (negsuc n) h =
    let large : ltb (18446744073709551615 - n) two_63 ≡ false = ground arith in
    let back : 18446744073709551615 - (18446744073709551615 - n) ≡ n = omega (arith, h) in
    rw large (ap negsuc back)

pub bits_of-bound : (z : ℤ) → SignedFits z → bits_of z < 256 ^ 8
bits_of-bound (pos n) h = omega (arith, h)
bits_of-bound (negsuc n) h = omega (arith, h)

unfoldable pub signed_amount_wire : Wire ℤ
signed_amount_wire = record {
  Fits = SignedFits;
  write = λ z. (uint_wire 8).write (bits_of z);
  read = λ bs. then_read ((uint_wire 8).read bs) (λ n r. some (signed_of_bits n, r));
  read-write = λ z rest h.
      then_read-some _ ((uint_wire 8).read-write (bits_of z) rest (bits_of-bound z h))
        (ap (λ y. some (y, rest)) (signed_of_bits-bits_of z h));
}

abbrev value_of : {A : Type 0} → Option (A × Bytes) → Option A
value_of none = none
value_of (some (a, rest)) = some a

-- `Serializable` for a type that is `Writeable` and `Readable`
abbrev pub codec_of : {A : Type 0} → Wire A → Codec A
codec_of w = record {
  Fits = w.Fits;
  serialize = w.write;
  deserialize = λ bs. value_of (w.read bs);
  deserialize-serialize = λ a h.
      ap (λ bs. value_of (w.read bs)) (sym (append-nil (w.write a)))
      ∙ ap value_of (w.read-write a [] h);
}

module _ (k : Crates) where
  abbrev enum_payouts_wire : Wire (List EnumerationPayout)
  enum_payouts_wire = vec_wire (enum_payout_wire k)

  abbrev write_contract_descriptor : ContractDescriptor → Bytes
  write_contract_descriptor (enum_descriptor e) = tagged 0 enum_payouts_wire e
  write_contract_descriptor (numerical_descriptor n) = tagged 1 k.numerical_descriptor n

  abbrev read_contract_descriptor : Bytes → Option (ContractDescriptor × Bytes)
  read_contract_descriptor [] = none
  read_contract_descriptor (x ∷ xs) =
      if x == 0
      then build_with enum_payouts_wire enum_descriptor xs
      else if x == 1
      then build_with k.numerical_descriptor numerical_descriptor xs
      else none

  abbrev DescriptorFits : ContractDescriptor → Type 0
  DescriptorFits (enum_descriptor e) = enum_payouts_wire.Fits e
  DescriptorFits (numerical_descriptor n) = k.numerical_descriptor.Fits n

  pub read_contract_descriptor-write_contract_descriptor :
      (d : ContractDescriptor) (rest : Bytes)
      → DescriptorFits d
      → read_contract_descriptor (write_contract_descriptor d ++ rest) ≡ some (d, rest)
  read_contract_descriptor-write_contract_descriptor (enum_descriptor e) rest h =
      then_read-some _ (enum_payouts_wire.read-write e rest h) refl
  read_contract_descriptor-write_contract_descriptor (numerical_descriptor n) rest h =
      then_read-some _ (k.numerical_descriptor.read-write n rest h) refl

  unfoldable pub contract_descriptor_wire : Wire ContractDescriptor
  contract_descriptor_wire = record {
    Fits = DescriptorFits;
    write = write_contract_descriptor;
    read = read_contract_descriptor;
    read-write = read_contract_descriptor-write_contract_descriptor;
  }

  abbrev write_adaptor : AdaptorInfo → Bytes
  write_adaptor (numerical n) = tagged 0 k.trie n
  write_adaptor (numerical_with_difference n) = tagged 1 k.trie_with_difference n
  write_adaptor enum = 2 ∷ []

  abbrev read_adaptor : Bytes → Option (AdaptorInfo × Bytes)
  read_adaptor [] = none
  read_adaptor (x ∷ xs) =
      if x == 0
      then build_with k.trie numerical xs
      else if x == 1
      then build_with k.trie_with_difference numerical_with_difference xs
      else if x == 2
      then some (enum, xs)
      else none

  abbrev AdaptorFits : AdaptorInfo → Type 0
  AdaptorFits (numerical n) = k.trie.Fits n
  AdaptorFits (numerical_with_difference n) = k.trie_with_difference.Fits n
  AdaptorFits enum = Unit

  pub read_adaptor-write_adaptor :
      (i : AdaptorInfo) (rest : Bytes)
      → AdaptorFits i
      → read_adaptor (write_adaptor i ++ rest) ≡ some (i, rest)
  read_adaptor-write_adaptor (numerical n) rest h =
      then_read-some _ (k.trie.read-write n rest h) refl
  read_adaptor-write_adaptor (numerical_with_difference n) rest h =
      then_read-some _ (k.trie_with_difference.read-write n rest h) refl
  read_adaptor-write_adaptor enum rest h = refl

  unfoldable pub adaptor_info_wire : Wire AdaptorInfo
  adaptor_info_wire = record {
    Fits = AdaptorFits;
    write = write_adaptor;
    read = read_adaptor;
    read-write = read_adaptor-write_adaptor;
  }

  abbrev attestations_wire : Wire (Option (List OracleAttestation))
  attestations_wire = option_wire (vec_wire (oracle_attestation_wire k))

  abbrev signatures_wire : Wire (Option (List Bytes))
  signatures_wire = option_wire (vec_wire k.adaptor_signature)

  unfoldable pub contract_info_wire : Wire ContractInfo
  contract_info_wire =
      struct_wire (contract_descriptor_wire ⊗ vec_wire (oracle_announcement_wire k) ⊗ uint_wire 8)
        (λ (a : ContractInfo). (a.contract_descriptor, (a.oracle_announcements, a.threshold)))
        (λ p. record { contract_descriptor = p.0; oracle_announcements = p.1.0; threshold = p.1.1 })
        (λ a. refl)

  unfoldable pub offered_contract_wire : Wire OfferedContract
  offered_contract_wire =
      struct_wire
        (fixed_wire 32
          ⊗ bool_wire
          ⊗ vec_wire contract_info_wire
          ⊗ party_params_wire k
          ⊗ uint_wire 8
          ⊗ vec_wire (funding_input_wire k)
          ⊗ uint_wire 8
          ⊗ uint_wire 8
          ⊗ uint_wire 4
          ⊗ uint_wire 4
          ⊗ k.public_key
          ⊗ fixed_wire 32)
        (λ (a : OfferedContract). (
          a.id,
          (
            a.is_offer_party,
            (
              a.contract_info,
              (
                a.offer_params,
                (
                  a.total_collateral,
                  (
                    a.funding_inputs,
                    (
                      a.fund_output_serial_id,
                      (
                        a.fee_rate_per_vb,
                        (a.cet_locktime, (a.refund_locktime, (a.counter_party, a.keys_id))),
                      ),
                    ),
                  ),
                ),
              ),
            ),
          ),
        ))
        (λ p. record {
          id = p.0;
          is_offer_party = p.1.0;
          contract_info = p.1.1.0;
          offer_params = p.1.1.1.0;
          total_collateral = p.1.1.1.1.0;
          funding_inputs = p.1.1.1.1.1.0;
          fund_output_serial_id = p.1.1.1.1.1.1.0;
          fee_rate_per_vb = p.1.1.1.1.1.1.1.0;
          cet_locktime = p.1.1.1.1.1.1.1.1.0;
          refund_locktime = p.1.1.1.1.1.1.1.1.1.0;
          counter_party = p.1.1.1.1.1.1.1.1.1.1.0;
          keys_id = p.1.1.1.1.1.1.1.1.1.1.1;
        })
        (λ a. refl)

  unfoldable pub offered_loan_contract_wire : Wire OfferedLoanContract
  offered_loan_contract_wire =
      struct_wire
        (offered_contract_wire
          ⊗ uint_wire 8
          ⊗ uint_wire 8
          ⊗ uint_wire 8
          ⊗ uint_wire 8
          ⊗ fixed_wire 32)
        (λ (a : OfferedLoanContract). (
          a.offered_contract,
          (
            a.collateral_ratio,
            (a.liquidation_ratio, (a.interest_rate, (a.duration, a.lender_hash))),
          ),
        ))
        (λ p. record {
          offered_contract = p.0;
          collateral_ratio = p.1.0;
          liquidation_ratio = p.1.1.0;
          interest_rate = p.1.1.1.0;
          duration = p.1.1.1.1.0;
          lender_hash = p.1.1.1.1.1;
        })
        (λ a. refl)

  unfoldable pub dlc_transactions_wire : Wire DlcTransactions
  dlc_transactions_wire =
      struct_wire (k.transaction ⊗ vec_wire k.transaction ⊗ k.transaction ⊗ k.script)
        (λ (a : DlcTransactions). (a.fund, (a.cets, (a.refund, a.funding_script_pubkey))))
        (λ p. record {
          fund = p.0;
          cets = p.1.0;
          refund = p.1.1.0;
          funding_script_pubkey = p.1.1.1;
        })
        (λ a. refl)

  unfoldable pub accepted_contract_wire : Wire AcceptedContract
  accepted_contract_wire =
      struct_wire
        (offered_contract_wire
          ⊗ party_params_wire k
          ⊗ vec_wire (funding_input_wire k)
          ⊗ vec_wire adaptor_info_wire
          ⊗ signatures_wire
          ⊗ k.ecdsa_signature
          ⊗ dlc_transactions_wire)
        (λ (a : AcceptedContract). (
          a.offered_contract,
          (
            a.accept_params,
            (
              a.funding_inputs,
              (
                a.adaptor_infos,
                (a.adaptor_signatures, (a.accept_refund_signature, a.dlc_transactions)),
              ),
            ),
          ),
        ))
        (λ p. record {
          offered_contract = p.0;
          accept_params = p.1.0;
          funding_inputs = p.1.1.0;
          adaptor_infos = p.1.1.1.0;
          adaptor_signatures = p.1.1.1.1.0;
          accept_refund_signature = p.1.1.1.1.1.0;
          dlc_transactions = p.1.1.1.1.1.1;
        })
        (λ a. refl)

  unfoldable pub signed_contract_wire : Wire SignedContract
  signed_contract_wire =
      struct_wire
        (accepted_contract_wire
          ⊗ signatures_wire
          ⊗ k.ecdsa_signature
          ⊗ funding_signatures_wire k
          ⊗ option_wire (fixed_wire 32))
        (λ (a : SignedContract). (
          a.accepted_contract,
          (a.adaptor_signatures, (a.offer_refund_signature, (a.funding_signatures, a.channel_id))),
        ))
        (λ p. record {
          accepted_contract = p.0;
          adaptor_signatures = p.1.0;
          offer_refund_signature = p.1.1.0;
          funding_signatures = p.1.1.1.0;
          channel_id = p.1.1.1.1;
        })
        (λ a. refl)

  unfoldable pub pre_closed_contract_wire : Wire PreClosedContract
  pre_closed_contract_wire =
      struct_wire (signed_contract_wire ⊗ attestations_wire ⊗ k.transaction)
        (λ (a : PreClosedContract). (a.signed_contract, (a.attestations, a.signed_cet)))
        (λ p. record { signed_contract = p.0; attestations = p.1.0; signed_cet = p.1.1 })
        (λ a. refl)

  unfoldable pub closed_contract_wire : Wire ClosedContract
  closed_contract_wire =
      struct_wire
        (attestations_wire
          ⊗ k.optional_transaction
          ⊗ fixed_wire 32
          ⊗ fixed_wire 32
          ⊗ k.public_key
          ⊗ signed_amount_wire)
        (λ (a : ClosedContract). (
          a.attestations,
          (a.signed_cet, (a.contract_id, (a.temporary_contract_id, (a.counter_party_id, a.pnl)))),
        ))
        (λ p. record {
          attestations = p.0;
          signed_cet = p.1.0;
          contract_id = p.1.1.0;
          temporary_contract_id = p.1.1.1.0;
          counter_party_id = p.1.1.1.1.0;
          pnl = p.1.1.1.1.1;
        })
        (λ a. refl)

  unfoldable pub failed_accept_contract_wire : Wire FailedAcceptContract
  failed_accept_contract_wire =
      struct_wire (offered_contract_wire ⊗ accept_dlc_wire k ⊗ string_wire k)
        (λ (a : FailedAcceptContract). (a.offered_contract, (a.accept_message, a.error_message)))
        (λ p. record { offered_contract = p.0; accept_message = p.1.0; error_message = p.1.1 })
        (λ a. refl)

  unfoldable pub failed_sign_contract_wire : Wire FailedSignContract
  failed_sign_contract_wire =
      struct_wire (accepted_contract_wire ⊗ sign_dlc_wire k ⊗ string_wire k)
        (λ (a : FailedSignContract). (a.accepted_contract, (a.sign_message, a.error_message)))
        (λ p. record { accepted_contract = p.0; sign_message = p.1.0; error_message = p.1.1 })
        (λ a. refl)

  -- The encodings of the states of a contract; bytes behind a value are not looked at.
  unfoldable pub contract_codecs : Codecs
  contract_codecs = record {
    offered_codec = codec_of offered_contract_wire;
    offered_loan_codec = codec_of offered_loan_contract_wire;
    accepted_codec = codec_of accepted_contract_wire;
    signed_codec = codec_of signed_contract_wire;
    failed_accept_codec = codec_of failed_accept_contract_wire;
    failed_sign_codec = codec_of failed_sign_contract_wire;
    pre_closed_codec = codec_of pre_closed_contract_wire;
    closed_codec = codec_of closed_contract_wire;
  }

  -- A contract in any state whose numbers, lengths and texts fit is read back from the bytes that the
  -- storage keeps, as it was and in the same state, if what other crates write for keys, signatures,
  -- scripts, outpoints and transactions, and the code for payout curves and tries, is read back.
  pub deserialize_contract-contract_codecs :
      (c : Contract)
      → FitsState contract_codecs c
      → deserialize_contract contract_codecs (serialize_contract contract_codecs c) ≡ ok c
  deserialize_contract-contract_codecs c h =
      deserialize_contract-serialize_contract contract_codecs c h
