-- ===== src/Manager/Checks.antt =====
-- The periodic checks of stable-borrow-cli/crates/dlc-manager/src/manager.rs. The lines that the code
-- logs, the ids in their texts included, are left out.
pub mod Escrow
use p2p_btc_lending.Prelude.{
  ℕ, ◌+◌, Bool, ◌&&◌, List, [], ◌∷◌, Option, some, none, ltb, leb, if◌then◌else◌, keep, length,
  Result, ok, err, unwrap,
}
use p2p_btc_lending.Dlc.Types.{Bytes}
use p2p_btc_lending.Dlc.Loan.{to_be_bytes}
use p2p_btc_lending.Messages.{OracleAnnouncement, OracleAttestation}
use p2p_btc_lending.Contract.Types.{
  Error, ContractInfo, AdaptorInfo, OfferedLoanContract, SignedContract, PreClosedContract,
  Contract, offered_loan_escrow_confirmed,
}
use p2p_btc_lending.Storage.{
  get_loan_contract_offers, get_signed_contracts, get_confirmed_contracts, get_preclosed_contracts,
  get_escrow_txid, get_loan_preimage,
}
use p2p_btc_lending.Manager.World.{
  Manager, Step, ◌>>=◌, ◌>>◌, lift, read, update, claim, ignore_error,
}
use p2p_btc_lending.Manager.Closing.{
  nb_confirmations, close_contract, check_refund, check_signed_contract, check_preclosed_contract,
}

abbrev pub enumerate_from : {A : Type 0} → ℕ → List A → List (ℕ × A)
enumerate_from i [] = []
enumerate_from i (x ∷ xs) = (i, x) ∷ enumerate_from (i + 1) xs

-- The second components.
abbrev pub seconds : {A B : Type 0} → List (A × B) → List B
seconds [] = []
seconds (x ∷ xs) = x.1 ∷ seconds xs

module _ (m : Manager) where
  -- The matured announcements, numbered among themselves.
  unfoldable pub matured : ContractInfo → List (ℕ × OracleAnnouncement)
  matured info = enumerate_from 0 (
      keep (λ a. leb a.oracle_event.event_maturity_epoch m.unix_time_now) info.oracle_announcements)

  -- The valid attestations, with the numbers of their announcements.
  unfoldable pub attested : List (ℕ × OracleAnnouncement) → List (ℕ × OracleAttestation)
  attested [] = []
  attested (x ∷ xs) =
      let rest = attested xs in
      elim (m.get_attestation x.1.oracle_public_key x.1.oracle_event.event_id) [
        | none ↦ rest
        | some a ↦ if m.is_valid_attestation a x.1 then (x.0, a) ∷ rest else rest
      ]

  -- The loop over the pairs of a contract info and an adaptor info.
  unfoldable pub closable_info :
      List ContractInfo
      → List AdaptorInfo
      → Option (ContractInfo × AdaptorInfo × List (ℕ × OracleAttestation))
  unfolding matured attested
  closable_info [] adaptors = none
  closable_info (c ∷ cs) [] = none
  closable_info (c ∷ cs) (a ∷ as') =
      let rest = closable_info cs as' in
      if leb c.threshold (length (matured c))
      then if leb c.threshold (length (attested (matured c)))
        then some (c, a, attested (matured c))
        else rest
      else rest

  unfoldable pub get_closable_contract_info :
      SignedContract → Option (ContractInfo × AdaptorInfo × List (ℕ × OracleAttestation))
  unfolding closable_info
  get_closable_contract_info contract =
      closable_info contract.accepted_contract.offered_contract.contract_info
        contract.accepted_contract.adaptor_infos

  unfoldable pub close_with :
      SignedContract
      → Option (ContractInfo × AdaptorInfo × List (ℕ × OracleAttestation))
      → Step m (Unit {0})
  close_with contract none = check_refund m contract
  close_with contract (some c) = do
    signer ← lift (m.derive_contract_signer contract.accepted_contract.offered_contract.keys_id)
    cet ← lift (m.get_signed_cet contract c.0 c.1 c.2 signer)
    closed_contract ← close_contract m contract cet (seconds c.2)
    update m closed_contract

  unfoldable pub check_confirmed_contract : SignedContract → Step m (Unit {0})
  unfolding close_with
  check_confirmed_contract contract = close_with contract (get_closable_contract_info contract)

  -- One pass of the loop over the offered loans, from the escrow's id.
  unfoldable pub check_escrow_of : OfferedLoanContract → Option Bytes → Step m (Unit {0})
  check_escrow_of contract none = lift (ok tt)
  check_escrow_of contract (some escrow_txid) = do
    stored ← read (λ s. get_loan_preimage m.sled s contract.offered_contract.id)
    borrower_preimage ← lift (unwrap stored)
    lift m.evm_provider
    loan ← lift (m.stable_loans (m.bitcoin.sha256 (to_be_bytes 16 borrower_preimage)))
    if ltb 0 loan.0 then claim m borrower_preimage else lift (ok tt)
    confirmations ← lift (m.get_transaction_confirmations escrow_txid)
    if leb nb_confirmations confirmations && ltb 0 loan.0
        then update m (offered_loan_escrow_confirmed contract)
        else lift (ok tt)

  unfoldable pub check_escrow : OfferedLoanContract → Step m (Unit {0})
  unfolding check_escrow_of
  check_escrow contract = do
    found ← read (λ s. get_escrow_txid m.sled s contract.offered_contract.id)
    check_escrow_of contract found

  -- `for`, with `?` in its body.
  abbrev pub for_each : {A : Type 0} → (A → Step m (Unit {0})) → List A → Step m (Unit {0})
  for_each f [] = lift (ok tt)
  for_each f (x ∷ xs) = f x >> for_each f xs

  unfoldable pub check_offered_loan_contracts_for_escrow : Step m (Unit {0})
  unfolding check_escrow
  check_offered_loan_contracts_for_escrow = do
    lift m.evm_key
    contracts ← read (get_loan_contract_offers m.sled m.codecs)
    for_each check_escrow contracts

  unfoldable pub check_signed_contracts : Step m (Unit {0})
  check_signed_contracts = do
    contracts ← read (get_signed_contracts m.sled m.codecs)
    for_each (λ c. ignore_error (check_signed_contract m c)) contracts

  -- Contracts of channels are left out.
  abbrev pub check_unless_channel : SignedContract → Option Bytes → Step m (Unit {0})
  check_unless_channel c (some id) = lift (ok tt)
  check_unless_channel c none = ignore_error (check_confirmed_contract c)

  unfoldable pub check_confirmed_contracts : Step m (Unit {0})
  check_confirmed_contracts = do
    contracts ← read (get_confirmed_contracts m.sled m.codecs)
    for_each (λ c. check_unless_channel c c.channel_id) contracts

  unfoldable pub check_preclosed_contracts : Step m (Unit {0})
  check_preclosed_contracts = do
    contracts ← read (get_preclosed_contracts m.sled m.codecs)
    for_each (λ c. ignore_error (check_preclosed_contract m c)) contracts

  -- `periodic_check` without the channels.
  unfoldable pub periodic_check : Step m (Unit {0})
  periodic_check = do
    check_offered_loan_contracts_for_escrow
    check_signed_contracts
    check_confirmed_contracts
    check_preclosed_contracts
