-- ===== src/Storage/Interface.antt =====
-- What the storage provider calls: trees of the crate `sled`, and the trait `Serializable` of
-- stable-borrow-cli/crates/dlc-manager/src/contract/ser.rs, whose encodings are in Wire/Contracts.
use p2p_btc_lending.Prelude.{◌≡◌, List, Option, some, none, if◌then◌else◌, bytes_eq, All}
use mathlib.Core.List.{Memᴰ}
use p2p_btc_lending.Dlc.Types.{Bytes}
use p2p_btc_lending.Contract.Types.{
  OfferedContract, OfferedLoanContract, AcceptedContract, SignedContract, FailedAcceptContract,
  FailedSignContract, PreClosedContract, ClosedContract,
}

-- A map from keys to values that can be walked through.
pub record Sled : Type 1 where
  pub Tree : Type 0
  pub get : Tree → Bytes → Option Bytes
  pub insert : Tree → Bytes → Bytes → Tree
  pub remove : Tree → Bytes → Tree
  pub iter : Tree → List (Bytes × Bytes)
  pub get-insert :
      (t : Tree) (k v j : Bytes) → get (insert t k v) j ≡ (if bytes_eq k j then some v else get t j)
  pub get-remove :
      (t : Tree) (k j : Bytes) → get (remove t k) j ≡ (if bytes_eq k j then none else get t j)
  pub iter_sound : (t : Tree) → All (λ e. get t e.0 ≡ some e.1) (iter t)
  pub iter_complete : (t : Tree) (k v : Bytes) → get t k ≡ some v → Memᴰ (k, v) (iter t)

-- An encoding that is read back for the values whose numbers fit their fields.
pub record Codec (A : Type 0) : Type 1 where
  pub Fits : A → Type 0
  pub serialize : A → Bytes
  pub deserialize : Bytes → Option A
  pub deserialize-serialize : (a : A) → Fits a → deserialize (serialize a) ≡ some a

pub record Codecs : Type 1 where
  pub offered_codec : Codec OfferedContract
  pub offered_loan_codec : Codec OfferedLoanContract
  pub accepted_codec : Codec AcceptedContract
  pub signed_codec : Codec SignedContract
  pub failed_accept_codec : Codec FailedAcceptContract
  pub failed_sign_codec : Codec FailedSignContract
  pub pre_closed_codec : Codec PreClosedContract
  pub closed_codec : Codec ClosedContract
