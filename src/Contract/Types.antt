-- ===== src/Contract/Types.antt =====
-- The data of stable-borrow-cli/crates/dlc-manager/src/contract (mod.rs, contract_info.rs,
-- contract_input.rs, enum_descriptor.rs, offered_contract.rs, accepted_contract.rs,
-- signed_contract.rs) and the errors of src/error.rs in that crate, without their texts.
--
-- A numerical descriptor and the tries over its outcomes stand as their serializations. The key id of
-- a signer, like every id, is a byte string.
use p2p_btc_lending.Prelude.{ℕ, Bool, List, Option}
use p2p_btc_lending.Prelude.Int.{ℤ}
use p2p_btc_lending.Dlc.Types.{Bytes, Transaction, Payout, PartyParams, DlcTransactions}
use p2p_btc_lending.Dlc.Types
use p2p_btc_lending.Messages.{
  OracleAnnouncement, OracleAttestation, FundingInput, AcceptDlc, SignDlc,
}

pub data Error : Type 0 where
  conversion io_error deserialize invalid_parameters invalid_state wallet_error : Error
  blockchain_error storage_error oracle_error secp_error out_of_range : Error
  dlc_error : Types.Error → Error

pub record EnumerationPayout : Type 0 where
  pub outcome : Bytes
  pub payout : Payout

pub data ContractDescriptor : Type 0 where
  enum_descriptor : List EnumerationPayout → ContractDescriptor
  numerical_descriptor : Bytes → ContractDescriptor

pub record ContractInfo : Type 0 where
  pub contract_descriptor : ContractDescriptor
  pub oracle_announcements : List OracleAnnouncement
  pub threshold : ℕ

pub record OracleInput : Type 0 where
  pub public_keys : List Bytes
  pub event_id : Bytes
  pub threshold : ℕ

pub record ContractInputInfo : Type 0 where
  pub contract_descriptor : ContractDescriptor
  pub oracles : OracleInput

pub record ContractInput : Type 0 where
  pub offer_collateral : ℕ
  pub accept_collateral : ℕ
  pub fee_rate : ℕ
  pub contract_infos : List ContractInputInfo

pub record LoanContractInput : Type 0 where
  pub collateral_ratio : ℕ
  pub liquidation_ratio : ℕ
  pub interest_rate : ℕ
  pub duration : ℕ
  pub collateral : ℕ
  pub fee_rate : ℕ
  pub contract_infos : List ContractInputInfo

pub record OfferedContract : Type 0 where
  pub id : Bytes
  pub is_offer_party : Bool
  pub contract_info : List ContractInfo
  pub counter_party : Bytes
  pub offer_params : PartyParams
  pub total_collateral : ℕ
  pub funding_inputs : List FundingInput
  pub fund_output_serial_id : ℕ
  pub fee_rate_per_vb : ℕ
  pub cet_locktime : ℕ
  pub refund_locktime : ℕ
  pub keys_id : Bytes

pub record OfferedLoanContract : Type 0 where
  pub offered_contract : OfferedContract
  pub collateral_ratio : ℕ
  pub liquidation_ratio : ℕ
  pub interest_rate : ℕ
  pub duration : ℕ
  pub lender_hash : Bytes

pub data AdaptorInfo : Type 0 where
  enum : AdaptorInfo
  numerical numerical_with_difference : Bytes → AdaptorInfo

pub record AcceptedContract : Type 0 where
  pub offered_contract : OfferedContract
  pub accept_params : PartyParams
  pub funding_inputs : List FundingInput
  pub adaptor_infos : List AdaptorInfo
  pub adaptor_signatures : Option (List Bytes)
  pub accept_refund_signature : Bytes
  pub dlc_transactions : DlcTransactions

pub record AcceptedLoanContract : Type 0 where
  pub offered_loan_contract : OfferedLoanContract
  pub accept_params : PartyParams
  pub funding_inputs : List FundingInput
  pub adaptor_infos : List AdaptorInfo
  pub adaptor_signatures : Option (List Bytes)
  pub accept_refund_signature : Bytes
  pub dlc_transactions : DlcTransactions
  pub escrow_txid : Bytes
  pub borrower_hash : Bytes
  pub signed_escrow_spend_tx : Transaction

pub record SignedContract : Type 0 where
  pub accepted_contract : AcceptedContract
  pub adaptor_signatures : Option (List Bytes)
  pub offer_refund_signature : Bytes
  pub funding_signatures : List (List Bytes)
  pub channel_id : Option Bytes

pub record FailedAcceptContract : Type 0 where
  pub offered_contract : OfferedContract
  pub accept_message : AcceptDlc
  pub error_message : Bytes

pub record FailedSignContract : Type 0 where
  pub accepted_contract : AcceptedContract
  pub sign_message : SignDlc
  pub error_message : Bytes

pub record PreClosedContract : Type 0 where
  pub signed_contract : SignedContract
  pub attestations : Option (List OracleAttestation)
  pub signed_cet : Transaction

pub record ClosedContract : Type 0 where
  pub attestations : Option (List OracleAttestation)
  pub signed_cet : Option Transaction
  pub contract_id : Bytes
  pub temporary_contract_id : Bytes
  pub counter_party_id : Bytes
  pub pnl : ℤ

pub data Contract : Type 0 where
  offered : OfferedContract → Contract
  offered_loan : OfferedLoanContract → Contract
  offered_loan_escrow_confirmed : OfferedLoanContract → Contract
  accepted : AcceptedContract → Contract
  signed : SignedContract → Contract
  confirmed : SignedContract → Contract
  pre_closed : PreClosedContract → Contract
  closed : ClosedContract → Contract
  refunded : SignedContract → Contract
  failed_accept : FailedAcceptContract → Contract
  failed_sign : FailedSignContract → Contract
  rejected : OfferedContract → Contract
