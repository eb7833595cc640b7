-- ===== src/Manager/World.antt =====
-- The struct `Manager` of stable-borrow-cli/crates/dlc-manager/src/manager.rs: what it calls, the
-- state that its methods change, and the methods' effects. What was written stays written when a
-- method returns an error or panics.
use p2p_btc_lending.Prelude.{ℕ, List, ◌∷◌, Bool, Option, Result, ok, err, panic}
use p2p_btc_lending.Dlc.Types.{Bytes, Transaction, PartyParams, Bitcoin}
use p2p_btc_lending.Messages.{
  OracleAnnouncement, OracleAttestation, FundingInput, OfferLoanDlc, AcceptDlc, AcceptLoanDlc,
  SignDlc,
}
use p2p_btc_lending.Contract.Types.{
  Error, Contract, ContractInfo, AdaptorInfo, LoanContractInput, OfferedContract,
  OfferedLoanContract, AcceptedContract, AcceptedLoanContract, SignedContract,
}
use p2p_btc_lending.Storage.Interface.{Sled, Codecs}
use p2p_btc_lending.Storage.{Store, update_contract}

-- A transaction of the manager's on the lending contract.
pub data EvmCall : Type 0 where
  lend_call : Bytes → ℕ → EvmCall
  claim_call : ℕ → EvmCall

-- The database, the wallet, the blockchain, the clock, the oracles, the keys and the lending contract
-- as one method finds them; and the functions of contract_updater.rs, conversion_utils.rs and
-- offered_contract.rs that sign, verify and convert contracts.
pub record Manager : Type 1 where
  pub sled : Sled
  pub codecs : Codecs
  pub bitcoin : Bitcoin
  -- the blockchain and the clock
  pub get_transaction_confirmations : Bytes → Result Error ℕ
  pub send_transaction : Transaction → Result Error (Unit {0})
  pub unix_time_now : ℕ
  -- the wallet; an address stands as the script that it is made of
  pub import_address : Bytes → Result Error (Unit {0})
  pub sign_raw_transaction : Transaction → Result Error Transaction
  pub get_party_params : ℕ → ℕ → Bytes → Result Error (PartyParams × List FundingInput)
  -- the keys; a signer stands as its secret key
  pub derive_signer_key_id : Bool → Bytes → Bytes
  pub derive_contract_signer : Bytes → Result Error Bytes
  pub get_sig_for_tx_input : Transaction → ℕ → Bytes → ℕ → Bytes → Result Error Bytes
  -- the attestation of a known oracle, where the request succeeds
  pub get_attestation : Bytes → Bytes → Option OracleAttestation
  pub is_valid_attestation : OracleAttestation → OracleAnnouncement → Bool
  -- the parse of the key for the contract on Citrea
  pub evm_key : Result Error (Unit {0})
  -- the environment's address of the contract on Citrea, and the connection to its provider
  pub evm_provider : Result Error (Unit {0})
  -- the call for a loan's collateral and preimage, the sending of a transaction and its receipt
  pub stable_loans : Bytes → Result Error (ℕ × ℕ)
  pub lend_stable : Bytes → ℕ → Result Error (Unit {0})
  pub claim_stable : ℕ → Result Error (Unit {0})
  pub get_receipt : EvmCall → Result Error (Unit {0})
  -- an error's text
  pub to_string : Error → Bytes
  -- offers
  pub offer_loan_contract :
      LoanContractInput
      → List (List OracleAnnouncement)
      → Bytes
      → ℕ
      → Result Error (OfferedLoanContract × OfferLoanDlc)
  pub validate_offer_loan_dlc : OfferLoanDlc → Result Error (Unit {0})
  pub try_from_offer_loan_dlc : OfferLoanDlc → Bytes → Bytes → Result Error OfferedLoanContract
  pub validate_offered_loan_contract : OfferedLoanContract → Result Error (Unit {0})
  -- signatures of contracts
  pub accept_loan_contract :
      OfferedLoanContract
      → Bytes
      → Bytes
      → Bytes
      → Result Error (AcceptedLoanContract × AcceptLoanDlc)
  pub verify_accepted_and_sign_loan_contract :
      OfferedContract → AcceptDlc → Transaction → Bytes → Result Error (SignedContract × SignDlc)
  pub verify_signed_contract :
      AcceptedContract → SignDlc → Result Error (SignedContract × Transaction)
  pub get_signed_cet :
      SignedContract
      → ContractInfo
      → AdaptorInfo
      → List (ℕ × OracleAttestation)
      → Bytes
      → Result Error Transaction
  pub get_signed_refund : SignedContract → Bytes → Result Error Transaction

-- What the methods change: the store, and what was given to the outside, the last first.
pub record World (m : Manager) : Type 0 where
  pub store : Store m.sled
  pub sent : List Transaction
  pub imported : List Bytes
  pub evm_calls : List EvmCall

abbrev pub Step : Manager → Type 0 → Type 0
Step m A = World m → World m × Result Error A

-- What follows a call: `?` on its result.
abbrev pub continue :
    {m : Manager} {A B : Type 0}
    → (A → Step m B)
    → World m × Result Error A
    → World m × Result Error B
continue f (w, ok a) = f a w
continue f (w, err e) = (w, err e)
continue f (w, panic) = (w, panic)

infixl 5 ◌>>=◌ ◌>>◌
unfoldable pub ◌>>=◌ : {m : Manager} {A B : Type 0} → Step m A → (A → Step m B) → Step m B
(s >>= f) w = continue f (s w)

abbrev pub ◌>>◌ : {m : Manager} {B : Type 0} → Step m (Unit {0}) → Step m B → Step m B
s >> k = s >>= λ _. k

-- A call that changes nothing.
abbrev pub lift : {m : Manager} {A : Type 0} → Result Error A → Step m A
lift r w = (w, r)

abbrev pub read : {m : Manager} {A : Type 0} → (Store m.sled → Result Error A) → Step m A
read f w = (w, f w.store)

abbrev pub modify : {m : Manager} → (Store m.sled → Store m.sled) → Step m (Unit {0})
modify f w = (record w { store = f w.store }, ok tt)

abbrev pub written :
    {m : Manager} → World m → Result Error (Store m.sled) → World m × Result Error (Unit {0})
written w (ok s) = (record w { store = s }, ok tt)
written w (err e) = (w, err e)
written w panic = (w, panic)

-- `self.store.update_contract(..)?`
abbrev pub update : (m : Manager) → Contract → Step m (Unit {0})
update m c w = written w (update_contract m.sled m.codecs m.bitcoin w.store c)

-- A call of the outside that is recorded when it succeeds.
abbrev pub recorded :
    {m : Manager} → World m → World m → Result Error (Unit {0}) → World m × Result Error (Unit {0})
recorded before after (ok u) = (after, ok u)
recorded before after (err e) = (before, err e)
recorded before after panic = (before, panic)

-- `self.blockchain.send_transaction(..)?`
abbrev pub broadcast : (m : Manager) → Transaction → Step m (Unit {0})
broadcast m tx w = recorded w (record w { sent = tx ∷ w.sent }) (m.send_transaction tx)

-- `self.wallet.import_address(..)?`
abbrev pub import : (m : Manager) → Bytes → Step m (Unit {0})
import m script w =
    recorded w (record w { imported = script ∷ w.imported }) (m.import_address script)

-- `send()`, then `get_receipt()`: what was sent stays recorded when there is no receipt.
abbrev pub submit : (m : Manager) → EvmCall → Result Error (Unit {0}) → Step m (Unit {0})
submit m call sending w =
    continue (λ _. lift (m.get_receipt call))
      (recorded w (record w { evm_calls = call ∷ w.evm_calls }) sending)

abbrev pub lend : (m : Manager) → Bytes → ℕ → Step m (Unit {0})
lend m hash amount = submit m (lend_call hash amount) (m.lend_stable hash amount)

abbrev pub claim : (m : Manager) → ℕ → Step m (Unit {0})
claim m preimage = submit m (claim_call preimage) (m.claim_stable preimage)

-- `if let Err(e) = .. { error!(..) }`
abbrev ignored :
    {m : Manager} → World m × Result Error (Unit {0}) → World m × Result Error (Unit {0})
ignored (w, err e) = (w, ok tt)
ignored (w, ok u) = (w, ok u)
ignored (w, panic) = (w, panic)

abbrev pub ignore_error : {m : Manager} → Step m (Unit {0}) → Step m (Unit {0})
ignore_error s w = ignored (s w)

abbrev pub unwrapped :
    {m : Manager} {A : Type 0} → World m × Result Error A → World m × Result Error A
unwrapped (w, ok a) = (w, ok a)
unwrapped (w, err e) = (w, panic)
unwrapped (w, panic) = (w, panic)

-- `unwrap()` on the result of a call that changes something.
abbrev pub unwrap_step : {m : Manager} {A : Type 0} → Step m A → Step m A
unwrap_step s w = unwrapped (s w)

-- `unwrap()` on a result.
abbrev pub unwrap_ok : {A : Type 0} → Result Error A → Result Error A
unwrap_ok (ok a) = ok a
unwrap_ok (err e) = panic
unwrap_ok panic = panic
