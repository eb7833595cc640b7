-- ===== src/Storage/Laws.antt =====
-- The laws of the store: what an update changes, and what stored preimages read back as.
use p2p_btc_lending.Prelude.{
  ℕ, zero, suc, ◌+◌, ◌*◌, ◌/◌, ◌%◌, ◌^◌, ◌<◌, ◌≡◌, refl, Bool, true, false, ◌&&◌, [], ◌∷◌, ◌++◌,
  some, none, arith, length, if◌then◌else◌, bytes_eq, Result, ok, Bool-cases, inl, inr,
}
use native.Mathlib.Nat.{pow-suc}
use p2p_btc_lending.Dlc.Types.{Bytes, Bitcoin}
use p2p_btc_lending.Dlc.Loan.{to_be_bytes}
use p2p_btc_lending.Contract.Types.{Error, Contract, accepted, signed}
use p2p_btc_lending.Contract.Ids.{get_id, get_temporary_id}
use p2p_btc_lending.Storage.Interface.{Sled, Codecs}
use p2p_btc_lending.Storage.Prefix.{
  FitsState, serialize_contract, deserialize_contract-serialize_contract,
}
use p2p_btc_lending.Storage.{
  Store, from_be_bytes_from, contract_of, set_loan_preimage, get_loan_preimage, get_contract,
  update_contract, drop_temporary,
}

-- The states that replace the entry under the temporary id.
abbrev pub replaces_offer : Contract → Bool
replaces_offer (accepted c) = true
replaces_offer (signed c) = true
replaces_offer _ = false

module _ (d : Sled) (cs : Codecs) where
  get-drop_temporary :
      (t : d.Tree) (c : Contract) (j : Bytes)
      → d.get (drop_temporary d cs t c) j
        ≡ (if replaces_offer c && bytes_eq (get_temporary_id c) j then none else d.get t j)
  unfolding drop_temporary
  get-drop_temporary t (accepted c) j = d.get-remove t _ j
  get-drop_temporary t (signed c) j = d.get-remove t _ j
  get-drop_temporary t _ j = refl

  contract_of-serialize_contract :
      (c : Contract)
      → FitsState cs c
      → contract_of cs (some (serialize_contract cs c)) ≡ ok (some c)
  contract_of-serialize_contract c f = rw (deserialize_contract-serialize_contract cs c f)

  -- After an update with a contract whose numbers fit, it is found under its id as it was given; an accepted or a signed
  -- contract is not found under its temporary id, unless the two ids are equal; every other id gives
  -- what it gave before.
  pub get_contract-update_contract :
      (b : Bitcoin) (s s' : Store d) (c : Contract) (id j : Bytes)
      → FitsState cs c
      → get_id b c ≡ ok id
      → update_contract d cs b s c ≡ ok s'
      → get_contract d cs s' j ≡ (
          if bytes_eq id j
          then ok (some c)
          else if replaces_offer c && bytes_eq (get_temporary_id c) j
          then ok none
          else get_contract d cs s j)
  unfolding update_contract get_contract
  get_contract-update_contract b s s' c id j f e h =
      let t = drop_temporary d cs s.contract_tree c in
      let v = serialize_contract cs c in
      let h' : ◌≡◌ {A = Result Error (Store d)} (ok (record s { contract_tree = d.insert t id v }))
          (ok s') =
        (rw e at h) in
      ground (
        arith,
        h',
        d.get-insert t id v j,
        get-drop_temporary s.contract_tree c j,
        contract_of-serialize_contract c f,
      )

length-append_one : (xs : Bytes) (y : ℕ) → length (xs ++ y ∷ []) ≡ length xs + 1
length-append_one [] y = refl
length-append_one (x ∷ xs) y = omega (arith, length-append_one xs y)

pub to_be_bytes-length : (k n : ℕ) → length (to_be_bytes k n) ≡ k
unfolding to_be_bytes
to_be_bytes-length zero n = refl
to_be_bytes-length (suc k) n =
    omega
      (arith, length-append_one (to_be_bytes k (n / 256)) (n % 256), to_be_bytes-length k (n / 256))

from_be_bytes_from-append :
    (acc : ℕ) (xs : Bytes) (y : ℕ)
    → from_be_bytes_from acc (xs ++ y ∷ []) ≡ from_be_bytes_from acc xs * 256 + y
unfolding from_be_bytes_from
from_be_bytes_from-append acc [] y = refl
from_be_bytes_from-append acc (x ∷ xs) y = from_be_bytes_from-append (acc * 256 + x) xs y

pub from_be_bytes-to_be_bytes : (k n : ℕ) → n < 256 ^ k → from_be_bytes_from 0 (to_be_bytes k n) ≡ n
unfolding to_be_bytes from_be_bytes_from
from_be_bytes-to_be_bytes zero n h = omega arith
from_be_bytes-to_be_bytes (suc k) n h =
    let h' : n < 256 ^ k * 256 = rw (pow-suc) at h in
    rw (from_be_bytes_from-append 0 (to_be_bytes k (n / 256)) (n % 256))
      (omega (arith, from_be_bytes-to_be_bytes k (n / 256) (omega arith)))

-- A stored preimage of 128 bits is read back, and the preimages of other contracts stay as they are.
pub get_loan_preimage-set_loan_preimage :
    (d : Sled) (s : Store d) (id j : Bytes) (preimage : ℕ)
    → preimage < 256 ^ 16
    → get_loan_preimage d (set_loan_preimage d s id preimage) j
      ≡ (if bytes_eq id j then ok (some preimage) else get_loan_preimage d s j)
unfolding get_loan_preimage set_loan_preimage
get_loan_preimage-set_loan_preimage d s id j preimage h =
    rw (d.get-insert s.preimage_tree id (to_be_bytes 16 preimage) j)
      (elim (Bool-cases (bytes_eq id j)) [
        | inl e ↦ rw (e, to_be_bytes-length 16 preimage, from_be_bytes-to_be_bytes 16 preimage h)
        | inr e ↦ rw e
      ])
