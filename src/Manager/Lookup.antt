-- ===== src/Manager/Lookup.antt =====
-- `get_contract_in_state!` of stable-borrow-cli/crates/dlc-manager/src/manager.rs, which is
-- `get_object_in_state!` of src/utils.rs in that crate for contracts.
use p2p_btc_lending.Prelude.{
  Bool, true, Bool-cases, Option-cases, inl, inr, >>=-eq-ok, ap, ◌∙◌, Option, some, none, bytes_eq,
  if◌then◌else◌, Result, ok, err, ◌>>=◌, ◌≡◌, refl, ◌↔◌,
}
use p2p_btc_lending.Dlc.Types.{Bytes}
use p2p_btc_lending.Contract.Types.{
  Error, invalid_parameters, invalid_state, Contract, offered_loan, offered_loan_escrow_confirmed,
  accepted, confirmed, OfferedLoanContract, AcceptedContract, SignedContract,
}
use p2p_btc_lending.Contract.Ids.{get_counter_party_id}
use p2p_btc_lending.Storage.{Store, get_contract}
use p2p_btc_lending.Manager.World.{Manager}

-- A peer that is given must be the contract's.
unfoldable pub is_involved : Option Bytes → Contract → Bool
is_involved none c = true
is_involved (some p) c = bytes_eq (get_counter_party_id c) p

abbrev expected : {A : Type 0} → Option A → Result Error A
expected (some a) = ok a
expected none = err invalid_state

-- What comes of the contract found; `state` is the pattern of the expected state.
abbrev select :
    {A : Type 0} → (Contract → Option A) → Option Bytes → Option Contract → Result Error A
select state peer none = err invalid_parameters
select state peer (some c) =
    if is_involved peer c then expected (state c) else err invalid_parameters

unfoldable pub get_contract_in_state :
    {A : Type 0} (m : Manager)
    → (Contract → Option A)
    → Store m.sled
    → Bytes
    → Option Bytes
    → Result Error A
unfolding is_involved
get_contract_in_state m state s id peer = do
  object ← get_contract m.sled m.codecs s id
  select state peer object

abbrev pub as_offered_loan : Contract → Option OfferedLoanContract
as_offered_loan (offered_loan c) = some c
as_offered_loan _ = none

abbrev pub as_offered_loan_escrow_confirmed : Contract → Option OfferedLoanContract
as_offered_loan_escrow_confirmed (offered_loan_escrow_confirmed c) = some c
as_offered_loan_escrow_confirmed _ = none

abbrev pub as_accepted : Contract → Option AcceptedContract
as_accepted (accepted c) = some c
as_accepted _ = none

abbrev pub as_confirmed : Contract → Option SignedContract
as_confirmed (confirmed c) = some c
as_confirmed _ = none

select-eq-ok :
    {A : Type 0} (state : Contract → Option A) (peer : Option Bytes) (found : Option Contract)
    (a : A)
    → select state peer found ≡ ok a
    → (c : Contract) × (found ≡ some c) × (is_involved peer c ≡ true) × (state c ≡ some a)
select-eq-ok state peer none a h = absurd (cc h)
select-eq-ok state peer (some c) a h = elim (Bool-cases (is_involved peer c)) [
  | inl e ↦ elim (Option-cases (state c)) [
    | inl n ↦ absurd (let h' : expected (state c) ≡ ok a = (rw e at h) in cc (n, h'))
    | inr (x, s) ↦ (c, refl, e, let h' : expected (state c) ≡ ok a = (rw e at h) in cc (s, h'))
  ]
  | inr e ↦ absurd (let h' : err invalid_parameters ≡ ok a = (rw e at h) in cc h')
]

-- The lookup of a contract in a state gives exactly what is stored under the id, in that state and,
-- where a peer is given, with that peer.
pub get_contract_in_state_iff :
    {A : Type 0} (m : Manager) (state : Contract → Option A) (s : Store m.sled) (id : Bytes)
    (peer : Option Bytes) (a : A)
    → (get_contract_in_state m state s id peer ≡ ok a) ↔ (
        (c : Contract) × (get_contract m.sled m.codecs s id ≡ ok (some c))
        × (is_involved peer c ≡ true)
        × (state c ≡ some a))
unfolding get_contract_in_state
get_contract_in_state_iff m state s id peer a = (
  (λ h.
      let (found, ef, h1) = >>=-eq-ok (get_contract m.sled m.codecs s id) _ h in
      let (c, ec, involved, es) = select-eq-ok state peer found a h1 in
      (c, ef ∙ ap ok ec, involved, es)),
  (λ (c, ec, involved, es). rw (ec, involved, es) refl),
)
