-- ===== src/Storage.antt =====
-- stable-borrow-cli/crates/dlc-sled-storage-provider/src/lib.rs: the contracts, preimages and escrow
-- ids in the trees of a database. The database is a parameter; it is taken not to fail.
pub mod Interface
pub mod Prefix
pub mod Laws
pub mod Queries
pub mod Tests
use p2p_btc_lending.Prelude.{
  ℕ, zero, suc, ◌+◌, ◌*◌, List, [], ◌∷◌, Option, some, none, ◌==◌, if◌then◌else◌, length, Result,
  ok, err, unwrap, panic, ◌>>=◌,
}
use p2p_btc_lending.Dlc.Types.{Bytes, Bitcoin}
use p2p_btc_lending.Dlc.Loan.{to_be_bytes}
use p2p_btc_lending.Contract.Types.{
  Error, storage_error, OfferedContract, OfferedLoanContract, SignedContract, PreClosedContract,
  Contract, offered, offered_loan, accepted, signed,
}
use p2p_btc_lending.Contract.Ids.{get_id, get_temporary_id}
use Interface.{Sled, Codec, Codecs}
use Prefix.{serialize_contract, deserialize_contract}

-- `u128::from_be_bytes`
unfoldable pub from_be_bytes_from : ℕ → Bytes → ℕ
from_be_bytes_from acc [] = acc
from_be_bytes_from acc (x ∷ xs) = from_be_bytes_from (acc * 256 + x) xs

module _ (d : Sled) where
  open d use {Tree}

  pub record Store : Type 0 where
    pub contract_tree : Tree
    pub preimage_tree : Tree
    pub escrow_txid_tree : Tree

-- The values of a tree that start with the prefix, without it. What does not decode is left out,
-- and a value without a first byte makes the code panic.
unfoldable pub values_with_prefix :
    {A : Type 0} → Codec A → ℕ → List (Bytes × Bytes) → Result Error (List A)
values_with_prefix c prefix [] = ok []
values_with_prefix c prefix ((k, []) ∷ es) = unwrap none
values_with_prefix c prefix ((k, x ∷ xs) ∷ es) = do
  rest ← values_with_prefix c prefix es
  ok (if x == prefix then elim (c.deserialize xs) [ none ↦ rest | some a ↦ a ∷ rest ] else rest)

-- What comes of a stored preimage, which must have 16 bytes.
abbrev preimage_of : Option Bytes → Result Error (Option ℕ)
preimage_of none = ok none
preimage_of (some bytes) =
    if length bytes == 16 then ok (some (from_be_bytes_from 0 bytes)) else err storage_error

abbrev contract_of : Codecs → Option Bytes → Result Error (Option Contract)
contract_of s none = ok none
contract_of s (some bytes) = deserialize_contract s bytes >>= λ c. ok (some c)

module _ (d : Sled) where
  open d use {Tree, get, insert, remove, iter}

  unfoldable pub set_loan_preimage : Store d → Bytes → ℕ → Store d
  set_loan_preimage s id preimage = record s {
    preimage_tree = insert s.preimage_tree id (to_be_bytes 16 preimage);
  }

  unfoldable pub get_loan_preimage : Store d → Bytes → Result Error (Option ℕ)
  unfolding from_be_bytes_from
  get_loan_preimage s id = preimage_of (get s.preimage_tree id)

  unfoldable pub set_escrow_txid : Store d → Bytes → Bytes → Store d
  set_escrow_txid s id txid = record s { escrow_txid_tree = insert s.escrow_txid_tree id txid }

  -- `Txid::from_slice(..).unwrap()` panics on another length than 32.
  unfoldable pub get_escrow_txid : Store d → Bytes → Result Error (Option Bytes)
  get_escrow_txid s id = elim (get s.escrow_txid_tree id) [
    | none ↦ ok none
    | some bytes ↦ if length bytes == 32 then ok (some bytes) else panic
  ]

  unfoldable pub delete_contract : Store d → Bytes → Store d
  delete_contract s id = record s { contract_tree = remove s.contract_tree id }

  module _ (cs : Codecs) where
    open cs use {offered_codec, offered_loan_codec, signed_codec, pre_closed_codec}

    unfoldable pub get_contract : Store d → Bytes → Result Error (Option Contract)
    get_contract s id = contract_of cs (get s.contract_tree id)

    unfoldable pub create_contract : Store d → OfferedContract → Store d
    create_contract s c = record s {
      contract_tree = insert s.contract_tree c.id (serialize_contract cs (offered c));
    }

    unfoldable pub create_loan_contract : Store d → OfferedLoanContract → Store d
    create_loan_contract s c = record s {
      contract_tree =
          insert s.contract_tree c.offered_contract.id (serialize_contract cs (offered_loan c));
    }

    -- Becoming accepted or signed takes the entry under the temporary id away.
    unfoldable pub drop_temporary : Tree → Contract → Tree
    drop_temporary t (accepted c) = remove t (get_temporary_id (accepted c))
    drop_temporary t (signed c) = remove t (get_temporary_id (signed c))
    drop_temporary t _ = t

    unfoldable pub update_contract : Bitcoin → Store d → Contract → Result Error (Store d)
    unfolding drop_temporary
    update_contract b s c = do
      id ← get_id b c
      ok (record s {
        contract_tree = insert (drop_temporary s.contract_tree c) id (serialize_contract cs c);
      })

    unfoldable pub get_signed_contracts : Store d → Result Error (List SignedContract)
    get_signed_contracts s = values_with_prefix signed_codec 5 (iter s.contract_tree)

    unfoldable pub get_confirmed_contracts : Store d → Result Error (List SignedContract)
    get_confirmed_contracts s = values_with_prefix signed_codec 6 (iter s.contract_tree)

    unfoldable pub get_contract_offers : Store d → Result Error (List OfferedContract)
    get_contract_offers s = values_with_prefix offered_codec 1 (iter s.contract_tree)

    unfoldable pub get_loan_contract_offers : Store d → Result Error (List OfferedLoanContract)
    get_loan_contract_offers s = values_with_prefix offered_loan_codec 2 (iter s.contract_tree)

    unfoldable pub get_preclosed_contracts : Store d → Result Error (List PreClosedContract)
    get_preclosed_contracts s = values_with_prefix pre_closed_codec 7 (iter s.contract_tree)
