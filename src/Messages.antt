-- ===== src/Messages.antt =====
-- The messages of stable-borrow-cli/crates/dlc-messages/src: lib.rs, oracle_msgs.rs and
-- contract_msgs.rs. Signatures, keys, ids and texts are byte strings. A numeric payout curve and its
-- rounding are floating point; they stand as their serializations.
use p2p_btc_lending.Prelude.{ℕ, Bool, List, Option}
use p2p_btc_lending.Dlc.Types.{Bytes, Transaction}

pub record DigitDecompositionEventDescriptor : Type 0 where
  pub base : ℕ
  pub is_signed : Bool
  pub unit : Bytes
  pub precision : Bytes
  pub nb_digits : ℕ

pub data EventDescriptor : Type 0 where
  enum_event : List Bytes → EventDescriptor
  digit_decomposition_event : DigitDecompositionEventDescriptor → EventDescriptor

pub record OracleEvent : Type 0 where
  pub oracle_nonces : List Bytes
  pub event_maturity_epoch : ℕ
  pub event_descriptor : EventDescriptor
  pub event_id : Bytes

pub record OracleAnnouncement : Type 0 where
  pub announcement_signature : Bytes
  pub oracle_public_key : Bytes
  pub oracle_event : OracleEvent

pub record OracleAttestation : Type 0 where
  pub event_id : Bytes
  pub oracle_public_key : Bytes
  pub signatures : List Bytes
  pub outcomes : List Bytes

pub record OracleParams : Type 0 where
  pub max_error_exp : ℕ
  pub min_fail_exp : ℕ
  pub maximize_coverage : Bool

pub record MultiOracleInfo : Type 0 where
  pub threshold : ℕ
  pub oracle_announcements : List OracleAnnouncement
  pub oracle_params : Option OracleParams

pub data OracleInfo : Type 0 where
  single : OracleAnnouncement → OracleInfo
  multi : MultiOracleInfo → OracleInfo

pub record ContractOutcome : Type 0 where
  pub outcome : Bytes
  pub offer_payout : ℕ

pub data SerContractDescriptor : Type 0 where
  enumerated_contract_descriptor : List ContractOutcome → SerContractDescriptor
  numeric_outcome_contract_descriptor : Bytes → SerContractDescriptor

pub record ContractInfoInner : Type 0 where
  pub contract_descriptor : SerContractDescriptor
  pub oracle_info : OracleInfo

pub data SerContractInfo : Type 0 where
  single_contract_info : ℕ → ContractInfoInner → SerContractInfo
  disjoint_contract_info : ℕ → List ContractInfoInner → SerContractInfo

pub record FundingInput : Type 0 where
  pub input_serial_id : ℕ
  pub prev_tx : Bytes
  pub prev_tx_vout : ℕ
  pub sequence : ℕ
  pub max_witness_len : ℕ
  pub redeem_script : Bytes

pub record OfferDlc : Type 0 where
  pub protocol_version : ℕ
  pub contract_flags : ℕ
  pub chain_hash : Bytes
  pub temporary_contract_id : Bytes
  pub contract_info : SerContractInfo
  pub funding_pubkey : Bytes
  pub payout_spk : Bytes
  pub payout_serial_id : ℕ
  pub offer_collateral : ℕ
  pub funding_inputs : List FundingInput
  pub change_spk : Bytes
  pub change_serial_id : ℕ
  pub fund_output_serial_id : ℕ
  pub fee_rate_per_vb : ℕ
  pub cet_locktime : ℕ
  pub refund_locktime : ℕ

pub record OfferLoanDlc : Type 0 where
  pub collateral_ratio : ℕ
  pub liquidation_ratio : ℕ
  pub interest_rate : ℕ
  pub duration : ℕ
  pub lender_hash : Bytes
  pub offer_dlc : OfferDlc

-- The adaptor signatures and the negotiation fields, of which the loan protocol sends none.
pub record AcceptDlc : Type 0 where
  pub protocol_version : ℕ
  pub temporary_contract_id : Bytes
  pub accept_collateral : ℕ
  pub funding_pubkey : Bytes
  pub payout_spk : Bytes
  pub payout_serial_id : ℕ
  pub funding_inputs : List FundingInput
  pub change_spk : Bytes
  pub change_serial_id : ℕ
  pub cet_adaptor_signatures : List Bytes
  pub refund_signature : Bytes
  pub negotiation_fields : Option Bytes

pub record AcceptLoanDlc : Type 0 where
  pub protocol_version : ℕ
  pub temporary_contract_id : Bytes
  pub accept_collateral : ℕ
  pub funding_pubkey : Bytes
  pub payout_spk : Bytes
  pub payout_serial_id : ℕ
  pub funding_inputs : List FundingInput
  pub change_spk : Bytes
  pub change_serial_id : ℕ
  pub cet_adaptor_signatures : List Bytes
  pub refund_signature : Bytes
  pub negotiation_fields : Option Bytes
  pub escrow_txid : Bytes
  pub borrower_hash : Bytes
  pub signed_escrow_spend_tx : Transaction
  pub escrow_amount : ℕ
  pub escrow_spk : Bytes
  pub collateral_spk : Bytes

unfoldable pub to_accept_dlc : AcceptLoanDlc → AcceptDlc
to_accept_dlc m = record {
  protocol_version = m.protocol_version;
  temporary_contract_id = m.temporary_contract_id;
  accept_collateral = m.accept_collateral;
  funding_pubkey = m.funding_pubkey;
  payout_spk = m.payout_spk;
  payout_serial_id = m.payout_serial_id;
  funding_inputs = m.funding_inputs;
  change_spk = m.change_spk;
  change_serial_id = m.change_serial_id;
  cet_adaptor_signatures = m.cet_adaptor_signatures;
  refund_signature = m.refund_signature;
  negotiation_fields = m.negotiation_fields;
}

-- The witness elements of each funding signature.
pub record SignDlc : Type 0 where
  pub protocol_version : ℕ
  pub contract_id : Bytes
  pub cet_adaptor_signatures : List Bytes
  pub refund_signature : Bytes
  pub funding_signatures : List (List Bytes)

pub record InitiateAcceptLoanDlc : Type 0 where
  pub protocol_version : ℕ
  pub contract_id : Bytes
  pub borrower_hash : Bytes
  pub escrow_txid : Bytes
