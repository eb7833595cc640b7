-- ===== src/Manager/Moves/Found.antt =====
-- The state in which a lookup by state found its contract.
use p2p_btc_lending.Prelude.{◌≡◌, some}
use p2p_btc_lending.Contract.Types.{
  OfferedLoanContract, AcceptedContract, Contract, offered, offered_loan,
  offered_loan_escrow_confirmed, accepted, signed, confirmed, pre_closed, closed, refunded,
  failed_accept, failed_sign, rejected,
}
use p2p_btc_lending.Manager.Lookup.{as_offered_loan, as_offered_loan_escrow_confirmed, as_accepted}

pub as_offered_loan-eq :
    (c : Contract) (a : OfferedLoanContract) → as_offered_loan c ≡ some a → c ≡ offered_loan a
as_offered_loan-eq (offered x) a h = absurd (cc h)
as_offered_loan-eq (offered_loan x) a h = cc h
as_offered_loan-eq (offered_loan_escrow_confirmed x) a h = absurd (cc h)
as_offered_loan-eq (accepted x) a h = absurd (cc h)
as_offered_loan-eq (signed x) a h = absurd (cc h)
as_offered_loan-eq (confirmed x) a h = absurd (cc h)
as_offered_loan-eq (pre_closed x) a h = absurd (cc h)
as_offered_loan-eq (closed x) a h = absurd (cc h)
as_offered_loan-eq (refunded x) a h = absurd (cc h)
as_offered_loan-eq (failed_accept x) a h = absurd (cc h)
as_offered_loan-eq (failed_sign x) a h = absurd (cc h)
as_offered_loan-eq (rejected x) a h = absurd (cc h)

pub as_offered_loan_escrow_confirmed-eq :
    (c : Contract) (a : OfferedLoanContract)
    → as_offered_loan_escrow_confirmed c ≡ some a
    → c ≡ offered_loan_escrow_confirmed a
as_offered_loan_escrow_confirmed-eq (offered x) a h = absurd (cc h)
as_offered_loan_escrow_confirmed-eq (offered_loan x) a h = absurd (cc h)
as_offered_loan_escrow_confirmed-eq (offered_loan_escrow_confirmed x) a h = cc h
as_offered_loan_escrow_confirmed-eq (accepted x) a h = absurd (cc h)
as_offered_loan_escrow_confirmed-eq (signed x) a h = absurd (cc h)
as_offered_loan_escrow_confirmed-eq (confirmed x) a h = absurd (cc h)
as_offered_loan_escrow_confirmed-eq (pre_closed x) a h = absurd (cc h)
as_offered_loan_escrow_confirmed-eq (closed x) a h = absurd (cc h)
as_offered_loan_escrow_confirmed-eq (refunded x) a h = absurd (cc h)
as_offered_loan_escrow_confirmed-eq (failed_accept x) a h = absurd (cc h)
as_offered_loan_escrow_confirmed-eq (failed_sign x) a h = absurd (cc h)
as_offered_loan_escrow_confirmed-eq (rejected x) a h = absurd (cc h)

pub as_accepted-eq : (c : Contract) (a : AcceptedContract) → as_accepted c ≡ some a → c ≡ accepted a
as_accepted-eq (offered x) a h = absurd (cc h)
as_accepted-eq (offered_loan x) a h = absurd (cc h)
as_accepted-eq (offered_loan_escrow_confirmed x) a h = absurd (cc h)
as_accepted-eq (accepted x) a h = cc h
as_accepted-eq (signed x) a h = absurd (cc h)
as_accepted-eq (confirmed x) a h = absurd (cc h)
as_accepted-eq (pre_closed x) a h = absurd (cc h)
as_accepted-eq (closed x) a h = absurd (cc h)
as_accepted-eq (refunded x) a h = absurd (cc h)
as_accepted-eq (failed_accept x) a h = absurd (cc h)
as_accepted-eq (failed_sign x) a h = absurd (cc h)
as_accepted-eq (rejected x) a h = absurd (cc h)
