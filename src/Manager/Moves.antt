-- ===== src/Manager/Moves.antt =====
-- The states of a loan's contract and how the manager moves from one to the next.
pub mod Found
pub mod Messages
pub mod Periodic
pub mod CounterParty
pub mod Events
use p2p_btc_lending.Prelude.{
  ℕ, ◌≡◌, ◌<◌, refl, arith, List, [], ◌∷◌, Option, some, none, Result, ok, err, panic, ap, ◌∙◌, ◌↔◌,
  Bool, true, false, leb, bytes_eq,
}
use p2p_btc_lending.Prelude.Int.{ℤ}
use p2p_btc_lending.Dlc.Types.{Bytes, OutPoint, Transaction}
use p2p_btc_lending.Dlc.Funding.{get_fund_outpoint}
use p2p_btc_lending.Messages.{OracleAttestation, OfferLoanDlc, AcceptDlc, AcceptLoanDlc, SignDlc}
use p2p_btc_lending.Contract.Ids.{get_contract_id}
use p2p_btc_lending.Contract.Pnl.{compute_pnl}
use p2p_btc_lending.Updater.Accept.{to_accepted_contract}
use p2p_btc_lending.Contract.Types.{
  Error, ContractInfo, AdaptorInfo, OfferedContract, OfferedLoanContract, AcceptedContract,
  AcceptedLoanContract, SignedContract, PreClosedContract, ClosedContract, FailedAcceptContract,
  FailedSignContract, Contract, offered, offered_loan, offered_loan_escrow_confirmed, accepted,
  signed, confirmed, pre_closed, closed, refunded, failed_accept, failed_sign, rejected,
}
use p2p_btc_lending.Storage.{
  Store, get_contract, create_loan_contract, set_loan_preimage, set_escrow_txid, update_contract,
}
use p2p_btc_lending.Manager.World.{
  Manager, World, Step, continue, ◌>>=◌, recorded, written, update, broadcast, import,
}
use p2p_btc_lending.Manager.Runs.{Always}
use p2p_btc_lending.Manager.Loans.Offering.{offer_of}
use p2p_btc_lending.Manager.Closing.{pre_closed_by, closed_with, spends}
use p2p_btc_lending.Manager.Checks.{get_closable_contract_info, seconds}

module _ (m : Manager) where
  -- How a confirmed contract is closed: by a transaction that the manager signs for the conditions
  -- that are attested, or by one of the counter party's that has an input.
  pub data Ending (s : SignedContract)
      : Option (List OracleAttestation) → Transaction → Type 0 where
    own :
        (signer : Bytes) (x : ContractInfo × AdaptorInfo × List (ℕ × OracleAttestation))
        (tx : Transaction)
        → get_closable_contract_info m s ≡ some x
        → m.derive_contract_signer s.accepted_contract.offered_contract.keys_id ≡ ok signer
        → m.get_signed_cet s x.0 x.1 x.2 signer ≡ ok tx
        → Ending s (some (seconds x.2)) tx
    counter_party :
        (fund : OutPoint) (tx : Transaction)
        → get_fund_outpoint m.bitcoin s.accepted_contract.dlc_transactions ≡ ok fund
        → spends m fund tx.input ≡ true
        → Ending s none tx

  -- The moves between the states, with what each is made of and what was checked before.
  pub data Transition : Contract → Contract → Type 0 where
    confirm_escrow :
        (o : OfferedLoanContract) → Transition (offered_loan o) (offered_loan_escrow_confirmed o)
    accept_loan :
        (o : OfferedLoanContract) (txid hash preimage : Bytes)
        (a : AcceptedLoanContract × AcceptLoanDlc)
        → m.accept_loan_contract o txid hash preimage ≡ ok a
        → Transition (offered_loan_escrow_confirmed o) (accepted (to_accepted_contract a.0))
    lender_sign :
        (o : OfferedLoanContract) (msg : AcceptDlc) (tx : Transaction) (spk : Bytes)
        (s : SignedContract × SignDlc)
        → m.verify_accepted_and_sign_loan_contract o.offered_contract msg tx spk ≡ ok s
        → Transition (offered_loan o) (signed s.0)
    refuse_accept :
        (o : OfferedLoanContract) (msg : AcceptDlc) (tx : Transaction) (spk : Bytes) (e : Error)
        → m.verify_accepted_and_sign_loan_contract o.offered_contract msg tx spk ≡ err e
        → Transition (offered_loan o) (
            failed_accept (record {
              offered_contract = o.offered_contract;
              accept_message = msg;
              error_message = m.to_string e;
            }))
    borrower_sign :
        (a : AcceptedContract) (msg : SignDlc) (s : SignedContract × Transaction)
        → m.verify_signed_contract a msg ≡ ok s
        → Transition (accepted a) (signed s.0)
    refuse_sign :
        (a : AcceptedContract) (msg : SignDlc) (e : Error)
        → m.verify_signed_contract a msg ≡ err e
        → Transition (accepted a) (
            failed_sign
              (record { accepted_contract = a; sign_message = msg; error_message = m.to_string e }))
    confirm :
        (s : SignedContract) (n : ℕ)
        → m.get_transaction_confirmations
            (m.bitcoin.compute_txid s.accepted_contract.dlc_transactions.fund)
          ≡ ok n
        → leb 6 n ≡ true
        → Transition (signed s) (confirmed s)
    pre_close :
        (s : SignedContract) (as' : Option (List OracleAttestation)) (tx : Transaction)
        → Ending s as' tx
        → Transition (confirmed s) (pre_closed_by m s as' tx)
    close_confirmed :
        (s : SignedContract) (as' : Option (List OracleAttestation)) (tx : Transaction) (pnl : ℤ)
        (id : Bytes)
        → Ending s as' tx
        → compute_pnl s.accepted_contract tx ≡ ok pnl
        → get_contract_id m.bitcoin s.accepted_contract ≡ ok id
        → Transition (confirmed s) (closed_with s as' tx pnl id)
    close_pre_closed :
        (p : PreClosedContract) (pnl : ℤ) (id : Bytes)
        → compute_pnl p.signed_contract.accepted_contract p.signed_cet ≡ ok pnl
        → get_contract_id m.bitcoin p.signed_contract.accepted_contract ≡ ok id
        → Transition
            (pre_closed p)
            (closed_with p.signed_contract p.attestations p.signed_cet pnl id)
    refund :
        (s : SignedContract)
        → leb s.accepted_contract.dlc_transactions.refund.lock_time m.unix_time_now ≡ true
        → Transition (confirmed s) (refunded s)
    counter_refund :
        (s : SignedContract) (tx : Transaction)
        → bytes_eq
            (m.bitcoin.compute_txid s.accepted_contract.dlc_transactions.refund)
            (m.bitcoin.compute_txid tx)
          ≡ true
        → Transition (confirmed s) (refunded s)

  -- What one message, call or check may make of the store: nothing, a peer's offer under a free id,
  -- the preimage of an own offer, with the offer if it is valid, the id of an escrow and its preimage,
  -- or one contract that is stored moves to its next state.
  pub data Moves (s : Store m.sled) : Store m.sled → Type 0 where
    stay : Moves s s
    offer :
        (msg : OfferLoanDlc) (peer : Bytes) (c : OfferedLoanContract)
        → offer_of m msg peer ≡ ok c
        → m.validate_offered_loan_contract c ≡ ok tt
        → get_contract m.sled m.codecs s c.offered_contract.id ≡ ok none
        → Moves s (create_loan_contract m.sled m.codecs s c)
    keep_preimage : (id : Bytes) (preimage : ℕ) → Moves s (set_loan_preimage m.sled s id preimage)
    own_offer :
        (c : OfferedLoanContract) (preimage : ℕ)
        → m.validate_offered_loan_contract c ≡ ok tt
        → Moves s (
            create_loan_contract m.sled m.codecs
              (set_loan_preimage m.sled s c.offered_contract.id preimage)
              c)
    keep_secrets :
        (id txid : Bytes) (preimage : ℕ)
        → Moves s (set_loan_preimage m.sled (set_escrow_txid m.sled s id txid) id preimage)
    advance :
        (c c' : Contract) (id : Bytes) (s' : Store m.sled)
        → get_contract m.sled m.codecs s id ≡ ok (some c)
        → Transition c c'
        → update_contract m.sled m.codecs m.bitcoin s c' ≡ ok s'
        → Moves s s'

-- A run that makes at most one of these moves.
abbrev pub MovesRun : {m : Manager} {C : Type 0} → Store m.sled → World m × Result Error C → Type 0
MovesRun {m} s p = Always (λ w'. Moves m s w'.store) p
