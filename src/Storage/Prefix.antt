-- ===== src/Storage/Prefix.antt =====
-- A contract as bytes: the number of its state, then its encoding.
use p2p_btc_lending.Prelude.{
  ℕ, ◌≡◌, [], ◌∷◌, Option, some, none, ◌==◌, if◌then◌else◌, Result, ok, err,
}
use p2p_btc_lending.Dlc.Types.{Bytes}
use p2p_btc_lending.Contract.Types.{
  Error, storage_error, io_error, Contract, offered, offered_loan, offered_loan_escrow_confirmed,
  accepted, signed, confirmed, pre_closed, closed, refunded, failed_accept, failed_sign, rejected,
}
use p2p_btc_lending.Storage.Interface.{Codec, Codecs}

-- `ContractPrefix::get_prefix`
unfoldable pub contract_prefix : Contract → ℕ
contract_prefix (offered o) = 1
contract_prefix (offered_loan o) = 2
contract_prefix (offered_loan_escrow_confirmed o) = 3
contract_prefix (accepted o) = 4
contract_prefix (signed o) = 5
contract_prefix (confirmed o) = 6
contract_prefix (pre_closed c) = 7
contract_prefix (closed c) = 8
contract_prefix (failed_accept c) = 9
contract_prefix (failed_sign c) = 10
contract_prefix (refunded o) = 11
contract_prefix (rejected o) = 12

-- Decodes the rest of a value for one state.
abbrev in_state : {A : Type 0} → (A → Contract) → Option A → Result Error Contract
in_state state (some a) = ok (state a)
in_state state none = err storage_error

abbrev decode_as : {A : Type 0} → Codec A → (A → Contract) → Bytes → Result Error Contract
decode_as c state xs = in_state state (c.deserialize xs)

module _ (s : Codecs) where
  open s use {
    offered_codec, offered_loan_codec, accepted_codec, signed_codec, failed_accept_codec,
    failed_sign_codec, pre_closed_codec, closed_codec,
  }

  abbrev serialize_state : Contract → Bytes
  serialize_state (offered o) = offered_codec.serialize o
  serialize_state (rejected o) = offered_codec.serialize o
  serialize_state (offered_loan o) = offered_loan_codec.serialize o
  serialize_state (offered_loan_escrow_confirmed o) = offered_loan_codec.serialize o
  serialize_state (accepted o) = accepted_codec.serialize o
  serialize_state (signed o) = signed_codec.serialize o
  serialize_state (confirmed o) = signed_codec.serialize o
  serialize_state (refunded o) = signed_codec.serialize o
  serialize_state (failed_accept c) = failed_accept_codec.serialize c
  serialize_state (failed_sign c) = failed_sign_codec.serialize c
  serialize_state (pre_closed c) = pre_closed_codec.serialize c
  serialize_state (closed c) = closed_codec.serialize c

  -- The contract's numbers fit their fields.
  abbrev pub FitsState : Contract → Type 0
  FitsState (offered o) = offered_codec.Fits o
  FitsState (rejected o) = offered_codec.Fits o
  FitsState (offered_loan o) = offered_loan_codec.Fits o
  FitsState (offered_loan_escrow_confirmed o) = offered_loan_codec.Fits o
  FitsState (accepted o) = accepted_codec.Fits o
  FitsState (signed o) = signed_codec.Fits o
  FitsState (confirmed o) = signed_codec.Fits o
  FitsState (refunded o) = signed_codec.Fits o
  FitsState (failed_accept c) = failed_accept_codec.Fits c
  FitsState (failed_sign c) = failed_sign_codec.Fits c
  FitsState (pre_closed c) = pre_closed_codec.Fits c
  FitsState (closed c) = closed_codec.Fits c

  unfoldable pub serialize_contract : Contract → Bytes
  unfolding contract_prefix
  serialize_contract c = contract_prefix c ∷ serialize_state c

  -- `try_into` on the prefix, and the decoder of its state.
  unfoldable pub deserialize_as : ℕ → Bytes → Result Error Contract
  deserialize_as p xs =
      if p == 1
      then decode_as offered_codec offered xs
      else if p == 2
      then decode_as offered_loan_codec offered_loan xs
      else if p == 3
      then decode_as offered_loan_codec offered_loan_escrow_confirmed xs
      else if p == 4
      then decode_as accepted_codec accepted xs
      else if p == 5
      then decode_as signed_codec signed xs
      else if p == 6
      then decode_as signed_codec confirmed xs
      else if p == 7
      then decode_as pre_closed_codec pre_closed xs
      else if p == 8
      then decode_as closed_codec closed xs
      else if p == 9
      then decode_as failed_accept_codec failed_accept xs
      else if p == 10
      then decode_as failed_sign_codec failed_sign xs
      else if p == 11
      then decode_as signed_codec refunded xs
      else if p == 12
      then decode_as offered_codec rejected xs
      else err storage_error

  unfoldable pub deserialize_contract : Bytes → Result Error Contract
  unfolding deserialize_as
  deserialize_contract [] = err io_error
  deserialize_contract (p ∷ xs) = deserialize_as p xs

  -- A contract in any state whose numbers fit is read back from its bytes as it was, in the same state.
  pub deserialize_contract-serialize_contract :
      (c : Contract) → FitsState c → deserialize_contract (serialize_contract c) ≡ ok c
  unfolding deserialize_contract serialize_contract
  deserialize_contract-serialize_contract (offered o) h =
      rw (offered_codec.deserialize-serialize o h)
  deserialize_contract-serialize_contract (rejected o) h =
      rw (offered_codec.deserialize-serialize o h)
  deserialize_contract-serialize_contract (offered_loan o) h =
      rw (offered_loan_codec.deserialize-serialize o h)
  deserialize_contract-serialize_contract (offered_loan_escrow_confirmed o) h =
      rw (offered_loan_codec.deserialize-serialize o h)
  deserialize_contract-serialize_contract (accepted o) h =
      rw (accepted_codec.deserialize-serialize o h)
  deserialize_contract-serialize_contract (signed o) h = rw (signed_codec.deserialize-serialize o h)
  deserialize_contract-serialize_contract (confirmed o) h =
      rw (signed_codec.deserialize-serialize o h)
  deserialize_contract-serialize_contract (refunded o) h =
      rw (signed_codec.deserialize-serialize o h)
  deserialize_contract-serialize_contract (failed_accept c) h =
      rw (failed_accept_codec.deserialize-serialize c h)
  deserialize_contract-serialize_contract (failed_sign c) h =
      rw (failed_sign_codec.deserialize-serialize c h)
  deserialize_contract-serialize_contract (pre_closed c) h =
      rw (pre_closed_codec.deserialize-serialize c h)
  deserialize_contract-serialize_contract (closed c) h = rw (closed_codec.deserialize-serialize c h)
