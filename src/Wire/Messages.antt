-- ===== src/Wire/Messages.antt =====
-- How messages are written and read: stable-borrow-cli/crates/dlc-messages/src/lib.rs and
-- oracle_msgs.rs, and the types of the crate dlc in ser_impls.rs.
--
-- What the crates lightning, bitcoin and secp256k1_zkp write, and the check of UTF-8, are parameters, as
-- are the payout curves and tries of numerical conditions, which are in floating point.
use p2p_btc_lending.Prelude.{
  ℕ, ◌≡◌, refl, ap, ◌∙◌, ◌<◌, List, ◌++◌, Option, none, some, Bool, ◌==◌, if◌then◌else◌, length,
  arith,
}
use mathlib.Core.List.{append_assoc}
use p2p_btc_lending.Dlc.Types.{Bytes, OutPoint, Transaction, Payout, TxInputInfo, PartyParams}
use p2p_btc_lending.Messages.{
  DigitDecompositionEventDescriptor, EventDescriptor, enum_event, digit_decomposition_event,
  OracleEvent, OracleAnnouncement, OracleAttestation, FundingInput, AcceptDlc, SignDlc,
}
use p2p_btc_lending.Contract.Types.{EnumerationPayout}
use p2p_btc_lending.Wire.{Wire, ◌⊗◌, struct_wire, fixed_wire, then_read, then_read-some}
use p2p_btc_lending.Wire.Numbers.{uint_wire, u8_wire, bool_wire, big_size_wire}
use p2p_btc_lending.Wire.Vectors.{vec_wire, vec_u16_wire, option_wire, checked_wire, tlv_wire}

pub record Crates : Type 1 where
  pub is_utf8 : Bytes → Bool
  pub public_key : Wire Bytes
  pub x_only_public_key : Wire Bytes
  pub schnorr_signature : Wire Bytes
  pub ecdsa_signature : Wire Bytes
  pub adaptor_signature : Wire Bytes
  pub script : Wire Bytes
  pub out_point : Wire OutPoint
  pub transaction : Wire Transaction
  pub optional_transaction : Wire (Option Transaction)
  pub negotiation_fields : Wire Bytes
  pub numerical_descriptor : Wire Bytes
  pub trie : Wire Bytes
  pub trie_with_difference : Wire Bytes

module _ (k : Crates) where
  -- `write_string` and `read_string`
  unfoldable pub string_wire : Wire Bytes
  string_wire = checked_wire (vec_wire u8_wire) k.is_utf8

  unfoldable pub bytes_wire : Wire Bytes
  bytes_wire = vec_wire u8_wire

  unfoldable pub payout_wire : Wire Payout
  payout_wire =
      struct_wire (uint_wire 8 ⊗ uint_wire 8) (λ (a : Payout). (a.offer, a.accept))
        (λ p. record { offer = p.0; accept = p.1 }) (λ a. refl)

  unfoldable pub enum_payout_wire : Wire EnumerationPayout
  enum_payout_wire =
      struct_wire (string_wire ⊗ payout_wire) (λ (a : EnumerationPayout). (a.outcome, a.payout))
        (λ p. record { outcome = p.0; payout = p.1 }) (λ a. refl)

  unfoldable pub tx_input_info_wire : Wire TxInputInfo
  tx_input_info_wire =
      struct_wire (k.out_point ⊗ uint_wire 8 ⊗ k.script ⊗ uint_wire 8)
        (λ (a : TxInputInfo). (a.outpoint, (a.max_witness_len, (a.redeem_script, a.serial_id))))
        (λ p. record {
          outpoint = p.0;
          max_witness_len = p.1.0;
          redeem_script = p.1.1.0;
          serial_id = p.1.1.1;
        })
        (λ a. refl)

  unfoldable pub party_params_wire : Wire PartyParams
  party_params_wire =
      struct_wire
        (k.public_key
          ⊗ k.script
          ⊗ uint_wire 8
          ⊗ k.script
          ⊗ uint_wire 8
          ⊗ vec_wire tx_input_info_wire
          ⊗ uint_wire 8
          ⊗ uint_wire 8)
        (λ (a : PartyParams). (
          a.fund_pubkey,
          (
            a.change_script_pubkey,
            (
              a.change_serial_id,
              (
                a.payout_script_pubkey,
                (a.payout_serial_id, (a.inputs, (a.input_amount, a.collateral))),
              ),
            ),
          ),
        ))
        (λ p. record {
          fund_pubkey = p.0;
          change_script_pubkey = p.1.0;
          change_serial_id = p.1.1.0;
          payout_script_pubkey = p.1.1.1.0;
          payout_serial_id = p.1.1.1.1.0;
          inputs = p.1.1.1.1.1.0;
          input_amount = p.1.1.1.1.1.1.0;
          collateral = p.1.1.1.1.1.1.1;
        })
        (λ a. refl)

  unfoldable pub funding_input_wire : Wire FundingInput
  funding_input_wire =
      struct_wire (uint_wire 8 ⊗ bytes_wire ⊗ uint_wire 4 ⊗ uint_wire 4 ⊗ uint_wire 2 ⊗ k.script)
        (λ (a : FundingInput). (
          a.input_serial_id,
          (a.prev_tx, (a.prev_tx_vout, (a.sequence, (a.max_witness_len, a.redeem_script)))),
        ))
        (λ p. record {
          input_serial_id = p.0;
          prev_tx = p.1.0;
          prev_tx_vout = p.1.1.0;
          sequence = p.1.1.1.0;
          max_witness_len = p.1.1.1.1.0;
          redeem_script = p.1.1.1.1.1;
        })
        (λ a. refl)

  unfoldable pub digit_decomposition_wire : Wire DigitDecompositionEventDescriptor
  digit_decomposition_wire =
      struct_wire (uint_wire 2 ⊗ bool_wire ⊗ string_wire ⊗ fixed_wire 4 ⊗ uint_wire 2)
        (λ (a : DigitDecompositionEventDescriptor).
          (a.base, (a.is_signed, (a.unit, (a.precision, a.nb_digits)))))
        (λ p. record {
          base = p.0;
          is_signed = p.1.0;
          unit = p.1.1.0;
          precision = p.1.1.1.0;
          nb_digits = p.1.1.1.1;
        })
        (λ a. refl)

  -- `impl_dlc_writeable_enum_as_tlv!` of `EventDescriptor`
  abbrev outcomes_wire : Wire (List Bytes)
  outcomes_wire = vec_u16_wire string_wire

  abbrev framed : {A : Type 0} → ℕ → Wire A → A → Bytes
  framed id w a = big_size_wire.write id ++ (big_size_wire.write (length (w.write a)) ++ w.write a)

  abbrev write_event : EventDescriptor → Bytes
  write_event (enum_event outcomes) = framed 55302 outcomes_wire outcomes
  write_event (digit_decomposition_event d) = framed 55306 digit_decomposition_wire d

  abbrev read_framed :
      {A : Type 0} → Wire A → (A → EventDescriptor) → Bytes → Option (EventDescriptor × Bytes)
  read_framed w event bs =
      then_read (big_size_wire.read bs) (λ n r. then_read (w.read r) (λ a r'. some (event a, r')))

  abbrev event_of : ℕ → Bytes → Option (EventDescriptor × Bytes)
  event_of id bs =
      if id == 55302
      then read_framed outcomes_wire enum_event bs
      else if id == 55306
      then read_framed digit_decomposition_wire digit_decomposition_event bs
      else none

  abbrev read_event : Bytes → Option (EventDescriptor × Bytes)
  read_event bs = then_read (big_size_wire.read bs) event_of

  abbrev EventFits : EventDescriptor → Type 0
  EventFits (enum_event outcomes) =
      outcomes_wire.Fits outcomes × (length (outcomes_wire.write outcomes) < 18446744073709551616)
  EventFits (digit_decomposition_event d) =
      digit_decomposition_wire.Fits d
      × (length (digit_decomposition_wire.write d) < 18446744073709551616)

  pub read_framed-framed :
      {A : Type 0} (w : Wire A) (event : A → EventDescriptor) (id : ℕ) (a : A) (rest : Bytes)
      → id < 18446744073709551616
      → w.Fits a
      → length (w.write a) < 18446744073709551616
      → event_of id ((big_size_wire.write (length (w.write a)) ++ w.write a) ++ rest)
        ≡ read_framed w event ((big_size_wire.write (length (w.write a)) ++ w.write a) ++ rest)
      → read_event (framed id w a ++ rest) ≡ some (event a, rest)
  read_framed-framed w event id a rest small fits counted chosen =
      let n = big_size_wire.write (length (w.write a)) in
      ap read_event (append_assoc (big_size_wire.write id) (n ++ w.write a) rest)
      ∙ then_read-some _ (big_size_wire.read-write id ((n ++ w.write a) ++ rest) small) (
          chosen
          ∙ ap (read_framed w event) (append_assoc n (w.write a) rest)
          ∙ then_read-some _ (big_size_wire.read-write (length (w.write a)) _ counted)
              (then_read-some _ (w.read-write a rest fits) refl))

  pub read_event-write_event :
      (e : EventDescriptor) (rest : Bytes)
      → EventFits e
      → read_event (write_event e ++ rest) ≡ some (e, rest)
  read_event-write_event (enum_event outcomes) rest h =
      read_framed-framed outcomes_wire enum_event 55302 outcomes rest (omega arith) h.0 h.1 refl
  read_event-write_event (digit_decomposition_event d) rest h =
      read_framed-framed digit_decomposition_wire digit_decomposition_event 55306 d rest
        (omega arith) h.0 h.1 refl

  unfoldable pub event_descriptor_wire : Wire EventDescriptor
  event_descriptor_wire = record {
    Fits = EventFits;
    write = write_event;
    read = read_event;
    read-write = read_event-write_event;
  }

  unfoldable pub oracle_event_wire : Wire OracleEvent
  oracle_event_wire =
      struct_wire
        (vec_u16_wire k.x_only_public_key ⊗ uint_wire 4 ⊗ event_descriptor_wire ⊗ string_wire)
        (λ (a : OracleEvent).
          (a.oracle_nonces, (a.event_maturity_epoch, (a.event_descriptor, a.event_id))))
        (λ p. record {
          oracle_nonces = p.0;
          event_maturity_epoch = p.1.0;
          event_descriptor = p.1.1.0;
          event_id = p.1.1.1;
        })
        (λ a. refl)

  unfoldable pub oracle_announcement_wire : Wire OracleAnnouncement
  oracle_announcement_wire =
      struct_wire (k.schnorr_signature ⊗ k.x_only_public_key ⊗ tlv_wire 55330 oracle_event_wire)
        (λ (a : OracleAnnouncement).
          (a.announcement_signature, (a.oracle_public_key, a.oracle_event)))
        (λ p. record {
          announcement_signature = p.0;
          oracle_public_key = p.1.0;
          oracle_event = p.1.1;
        })
        (λ a. refl)

  unfoldable pub oracle_attestation_wire : Wire OracleAttestation
  oracle_attestation_wire =
      struct_wire
        (string_wire
          ⊗ k.x_only_public_key
          ⊗ vec_u16_wire k.schnorr_signature
          ⊗ vec_u16_wire string_wire)
        (λ (a : OracleAttestation). (a.event_id, (a.oracle_public_key, (a.signatures, a.outcomes))))
        (λ p. record {
          event_id = p.0;
          oracle_public_key = p.1.0;
          signatures = p.1.1.0;
          outcomes = p.1.1.1;
        })
        (λ a. refl)

  unfoldable pub accept_dlc_wire : Wire AcceptDlc
  accept_dlc_wire =
      struct_wire
        (uint_wire 4
          ⊗ fixed_wire 32
          ⊗ uint_wire 8
          ⊗ k.public_key
          ⊗ k.script
          ⊗ uint_wire 8
          ⊗ vec_wire funding_input_wire
          ⊗ k.script
          ⊗ uint_wire 8
          ⊗ vec_wire k.adaptor_signature
          ⊗ k.ecdsa_signature
          ⊗ option_wire k.negotiation_fields)
        (λ (a : AcceptDlc). (
          a.protocol_version,
          (
            a.temporary_contract_id,
            (
              a.accept_collateral,
              (
                a.funding_pubkey,
                (
                  a.payout_spk,
                  (
                    a.payout_serial_id,
                    (
                      a.funding_inputs,
                      (
                        a.change_spk,
                        (
                          a.change_serial_id,
                          (a.cet_adaptor_signatures, (a.refund_signature, a.negotiation_fields)),
                        ),
                      ),
                    ),
                  ),
                ),
              ),
            ),
          ),
        ))
        (λ p. record {
          protocol_version = p.0;
          temporary_contract_id = p.1.0;
          accept_collateral = p.1.1.0;
          funding_pubkey = p.1.1.1.0;
          payout_spk = p.1.1.1.1.0;
          payout_serial_id = p.1.1.1.1.1.0;
          funding_inputs = p.1.1.1.1.1.1.0;
          change_spk = p.1.1.1.1.1.1.1.0;
          change_serial_id = p.1.1.1.1.1.1.1.1.0;
          cet_adaptor_signatures = p.1.1.1.1.1.1.1.1.1.0;
          refund_signature = p.1.1.1.1.1.1.1.1.1.1.0;
          negotiation_fields = p.1.1.1.1.1.1.1.1.1.1.1;
        })
        (λ a. refl)

  unfoldable pub funding_signatures_wire : Wire (List (List Bytes))
  funding_signatures_wire = vec_wire (vec_wire bytes_wire)

  unfoldable pub sign_dlc_wire : Wire SignDlc
  sign_dlc_wire =
      struct_wire
        (uint_wire 4
          ⊗ fixed_wire 32
          ⊗ vec_wire k.adaptor_signature
          ⊗ k.ecdsa_signature
          ⊗ funding_signatures_wire)
        (λ (a : SignDlc). (
          a.protocol_version,
          (a.contract_id, (a.cet_adaptor_signatures, (a.refund_signature, a.funding_signatures))),
        ))
        (λ p. record {
          protocol_version = p.0;
          contract_id = p.1.0;
          cet_adaptor_signatures = p.1.1.0;
          refund_signature = p.1.1.1.0;
          funding_signatures = p.1.1.1.1;
        })
        (λ a. refl)
