-- ===== src/Manager/Moves/Events.antt =====
-- One event of the loan protocol: a message that arrives, a call of the user, or the check of one
-- contract that the store holds.
use p2p_btc_lending.Prelude.{ℕ, List}
use p2p_btc_lending.Dlc.Types.{Bytes, Transaction}
use p2p_btc_lending.Messages.{
  OracleAnnouncement, OfferLoanDlc, AcceptLoanDlc, SignDlc, InitiateAcceptLoanDlc,
}
use p2p_btc_lending.Contract.Types.{
  LoanContractInput, OfferedLoanContract, SignedContract, PreClosedContract, offered_loan, signed,
  confirmed, pre_closed,
}
use p2p_btc_lending.Manager.World.{Manager, World}
use p2p_btc_lending.Manager.Loans.{
  send_offer_loan_with_announcements, on_offer_loan_message, initiate_accept_loan_contract_offer,
  accept_loan_contract_offer, on_initiate_accept_loan_message, on_accept_loan_message,
  on_sign_message,
}
use p2p_btc_lending.Manager.Closing.{
  check_signed_contract, check_preclosed_contract, on_counterparty_close,
}
use p2p_btc_lending.Manager.Checks.{check_escrow, check_confirmed_contract}
use p2p_btc_lending.Manager.Moves.{Moves}
use p2p_btc_lending.Manager.Moves.Periodic.{Stored}

pub data Event : Type 0 where
  lender_offers : LoanContractInput → Bytes → List (List OracleAnnouncement) → ℕ → Event
  offer_arrives : OfferLoanDlc → Bytes → Event
  borrower_initiates : Bytes → ℕ → Event
  initiation_arrives : InitiateAcceptLoanDlc → Bytes → Event
  borrower_accepts : Bytes → Event
  acceptance_arrives : AcceptLoanDlc → Bytes → Event
  signature_arrives : SignDlc → Bytes → Event
  offered_checked : OfferedLoanContract → Event
  signed_checked : SignedContract → Event
  confirmed_checked : SignedContract → Event
  pre_closed_checked : PreClosedContract → Event
  counter_party_closes : SignedContract → Transaction → ℕ → Event

module _ (m : Manager) where
  -- The world after an event, whatever the handler returns.
  abbrev pub handle : Event → World m → World m
  handle (lender_offers input peer announcements preimage) w =
      (send_offer_loan_with_announcements m input peer announcements preimage w).0
  handle (offer_arrives msg peer) w = (on_offer_loan_message m msg peer w).0
  handle (borrower_initiates id preimage) w =
      (initiate_accept_loan_contract_offer m id preimage w).0
  handle (initiation_arrives msg peer) w = (on_initiate_accept_loan_message m msg peer w).0
  handle (borrower_accepts id) w = (accept_loan_contract_offer m id w).0
  handle (acceptance_arrives msg peer) w = (on_accept_loan_message m msg peer w).0
  handle (signature_arrives msg peer) w = (on_sign_message m msg peer w).0
  handle (offered_checked c) w = (check_escrow m c w).0
  handle (signed_checked c) w = (check_signed_contract m c w).0
  handle (confirmed_checked c) w = (check_confirmed_contract m c w).0
  handle (pre_closed_checked p) w = (check_preclosed_contract m p w).0
  handle (counter_party_closes c tx n) w = (on_counterparty_close m c tx n w).0

  -- A check is made of a contract that the store holds; a counter party closes a confirmed one.
  abbrev pub IsReady : Event → World m → Type 0
  IsReady (offered_checked c) w = Stored m w (offered_loan c)
  IsReady (signed_checked c) w = Stored m w (signed c)
  IsReady (confirmed_checked c) w = Stored m w (confirmed c)
  IsReady (pre_closed_checked p) w = Stored m w (pre_closed p)
  IsReady (counter_party_closes c tx n) w = Stored m w (confirmed c)
  IsReady _ w = Unit
