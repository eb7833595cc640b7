-- ===== src/Dlc/Signing.antt =====
-- Signatures of the transactions: stable-borrow-cli/crates/dlc/src/util.rs, secp_utils.rs and the
-- last part of lib.rs in that crate. Messages, keys, points and signatures are byte strings.
pub mod Schemes
use p2p_btc_lending.Prelude.{
  ℕ, zero, suc, ◌+◌, Bool, List, [], ◌∷◌, ◌++◌, Option, some, none, ltb, Result, ok, err, panic,
  ensure, unwrap, collect, for_each, at_index, length, ◌>>=◌, ◌>>◌, not, ◌||◌,
}
use p2p_btc_lending.Dlc.Types.{
  Bytes, TxIn, Transaction, Error, secp256k1, invalid_argument, inputs_index,
}

-- What the code calls of the crates `bitcoin` and `secp256k1_zkp`.
pub record Secp : Type 0 where
  -- `SighashCache::p2wsh_signature_hash` with `EcdsaSighashType::All`
  pub p2wsh_signature_hash : Transaction → ℕ → Bytes → ℕ → Option Bytes
  pub sign_ecdsa_low_r : Bytes → Bytes → Bytes
  pub verify_ecdsa : Bytes → Bytes → Bytes → Bool
  pub serialize_der : Bytes → Bytes
  -- the public key of a secret key
  pub public_key : Bytes → Bytes
  -- `EcdsaAdaptorSignature`
  pub encrypt : Bytes → Bytes → Bytes → Bytes
  pub verify_adaptor : Bytes → Bytes → Bytes → Bytes → Bool
  pub decrypt : Bytes → Bytes → Option Bytes
  -- points and scalars
  pub public_key_from_slice : Bytes → Option Bytes
  pub x_only_from_slice : Bytes → Option Bytes
  pub secret_key_from_slice : Bytes → Option Bytes
  pub combine_keys : List Bytes → Option Bytes
  pub mul_tweak : Bytes → Bytes → Option Bytes
  pub add_tweak : Bytes → Bytes → Option Bytes
  -- `Scalar::from_be_bytes`
  pub scalar_from_be_bytes : Bytes → Option Bytes
  -- the hash with BIP 340's tag
  pub bip340_hash : Bytes → Bytes

-- The public key and the nonces of an oracle: `OracleInfo` of lib.rs.
pub record OracleInfo : Type 0 where
  pub public_key : Bytes
  pub nonces : List Bytes

-- `ok_or(e)?`, and `?` on the errors of `secp256k1_zkp`.
abbrev pub ok_or {ℓ} : {A : Type ℓ} → Option A → Error → Result Error A
ok_or (some a) e = ok a
ok_or none e = err e

abbrev pub take_bytes : ℕ → Bytes → Bytes
take_bytes zero xs = []
take_bytes (suc n) [] = []
take_bytes (suc n) (x ∷ xs) = x ∷ take_bytes n xs

abbrev pub drop_bytes : ℕ → Bytes → Bytes
drop_bytes zero xs = xs
drop_bytes (suc n) [] = []
drop_bytes (suc n) (x ∷ xs) = drop_bytes n xs

abbrev pub concat {ℓ} : {A : Type ℓ} → List (List A) → List A
concat [] = []
concat (xs ∷ xss) = xs ++ concat xss

-- `for (x, y) in xs.iter().zip(ys.iter())`
abbrev pub zip {ℓ κ} : {A : Type ℓ} {B : Type κ} → List A → List B → List (A × B)
zip [] ys = []
zip (x ∷ xs) [] = []
zip (x ∷ xs) (y ∷ ys) = (x, y) ∷ zip xs ys

abbrev pub sighash_all : ℕ
sighash_all = 1

-- `tx.input[i].witness = w`
abbrev pub set_witness : ℕ → List Bytes → List TxIn → Result Error (List TxIn)
set_witness i w [] = panic
set_witness zero w (x ∷ xs) = ok (record x { witness = w } ∷ xs)
set_witness (suc i) w (x ∷ xs) = do rest ← set_witness i w xs; ok (x ∷ rest)

module _ (k : Secp) where
  unfoldable pub get_sig_hash_msg : Transaction → ℕ → Bytes → ℕ → Result Error Bytes
  get_sig_hash_msg tx input_index script_pubkey value =
      ok_or (k.p2wsh_signature_hash tx input_index script_pubkey value) inputs_index

  unfoldable pub finalize_sig : Bytes → ℕ → Bytes
  finalize_sig sig sig_hash_type = k.serialize_der sig ++ sig_hash_type ∷ []

  unfoldable pub get_raw_sig_for_tx_input : Transaction → ℕ → Bytes → ℕ → Bytes → Result Error Bytes
  get_raw_sig_for_tx_input tx input_index script_pubkey value sk = do
    msg ← get_sig_hash_msg tx input_index script_pubkey value
    ok (k.sign_ecdsa_low_r msg sk)

  unfoldable pub get_sig_for_tx_input : Transaction → ℕ → Bytes → ℕ → ℕ → Bytes → Result Error Bytes
  get_sig_for_tx_input tx input_index script_pubkey value sig_hash_type sk = do
    sig ← get_raw_sig_for_tx_input tx input_index script_pubkey value sk
    ok (finalize_sig sig sig_hash_type)

  unfoldable pub sign_multi_sig_input :
      Transaction → Bytes → Bytes → Bytes → Bytes → ℕ → ℕ → Result Error Transaction
  sign_multi_sig_input tx other_sig other_pk sk script_pubkey input_value input_index = do
    own_sig ← get_sig_for_tx_input tx input_index script_pubkey input_value sighash_all sk
    let other_finalized_sig = finalize_sig other_sig sighash_all
    input ←
        set_witness input_index ([] ∷ own_sig ∷ other_finalized_sig ∷ script_pubkey ∷ []) tx.input
    ok (record tx { input = input })

  unfoldable pub verify_tx_input_sig :
      Bytes → Transaction → ℕ → Bytes → ℕ → Bytes → Result Error (Unit {0})
  verify_tx_input_sig signature tx input_index script_pubkey value pk = do
    msg ← get_sig_hash_msg tx input_index script_pubkey value
    ensure (k.verify_ecdsa msg signature pk) secp256k1

  unfoldable pub create_cet_adaptor_sig_from_point :
      Transaction → Bytes → Bytes → Bytes → ℕ → Result Error Bytes
  create_cet_adaptor_sig_from_point cet adaptor_point funding_sk funding_script_pubkey
        fund_output_value =
      do
        sig_hash ← get_sig_hash_msg cet 0 funding_script_pubkey fund_output_value
        ok (k.encrypt sig_hash funding_sk adaptor_point)

  unfoldable pub verify_cet_adaptor_sig_from_point :
      Bytes → Transaction → Bytes → Bytes → Bytes → ℕ → Result Error (Unit {0})
  verify_cet_adaptor_sig_from_point adaptor_sig cet adaptor_point pubkey funding_script_pubkey
        total_collateral =
      do
        sig_hash ← get_sig_hash_msg cet 0 funding_script_pubkey total_collateral
        ensure (k.verify_adaptor adaptor_sig sig_hash pubkey adaptor_point) secp256k1

  -- A key of the even point.
  unfoldable pub schnorr_pubkey_to_pubkey : Bytes → Result Error Bytes
  schnorr_pubkey_to_pubkey schnorr_pubkey =
      ok_or (k.public_key_from_slice (2 ∷ schnorr_pubkey)) secp256k1

  unfoldable pub schnorrsig_compute_sig_point : Bytes → Bytes → Bytes → Result Error Bytes
  schnorrsig_compute_sig_point pubkey nonce message = do
    let hash = k.bip340_hash (nonce ++ pubkey ++ message)
    pk ← schnorr_pubkey_to_pubkey pubkey
    scalar ← unwrap (k.scalar_from_be_bytes hash)
    tweaked ← ok_or (k.mul_tweak pk scalar) secp256k1
    npk ← schnorr_pubkey_to_pubkey nonce
    ok_or (k.combine_keys (npk ∷ tweaked ∷ [])) secp256k1

  -- A signature has 64 bytes: the nonce, and the scalar that is returned.
  unfoldable pub schnorrsig_decompose : Bytes → Result Error (Bytes × Bytes)
  schnorrsig_decompose signature = do
    nonce ← ok_or (k.x_only_from_slice (take_bytes 32 signature)) secp256k1
    ok (nonce, drop_bytes 32 signature)

  unfoldable pub get_oracle_sig_point : OracleInfo → List Bytes → Result Error Bytes
  get_oracle_sig_point info msgs = do
    ensure (not (ltb (length info.nonces) (length msgs))) invalid_argument
    points ←
        collect (λ (p : Bytes × Bytes). schnorrsig_compute_sig_point info.public_key p.0 p.1)
          (zip info.nonces msgs)
    ok_or (k.combine_keys points) secp256k1

  -- `for (i, info) in oracle_infos.iter().enumerate()`, which reads `msgs[i]`
  unfoldable pub oracle_sig_points : List OracleInfo → List (List Bytes) → Result Error (List Bytes)
  oracle_sig_points [] msgs = ok []
  oracle_sig_points (info ∷ infos) [] = panic
  oracle_sig_points (info ∷ infos) (m ∷ ms) = do
    point ← get_oracle_sig_point info m
    points ← oracle_sig_points infos ms
    ok (point ∷ points)

  unfoldable pub get_adaptor_point_from_oracle_info :
      List OracleInfo → List (List Bytes) → Result Error Bytes
  get_adaptor_point_from_oracle_info [] msgs = err invalid_argument
  get_adaptor_point_from_oracle_info (info ∷ infos) [] = err invalid_argument
  get_adaptor_point_from_oracle_info (info ∷ infos) (m ∷ ms) = do
    points ← oracle_sig_points (info ∷ infos) (m ∷ ms)
    ok_or (k.combine_keys points) secp256k1

  unfoldable pub signatures_to_secret : List (List Bytes) → Result Error Bytes
  signatures_to_secret signatures = do
    s_values ← collect (λ s. do parts ← schnorrsig_decompose s; ok parts.1) (concat signatures)
    first ← at_index s_values 0
    secret ← ok_or (k.secret_key_from_slice first) secp256k1
    for_each
        (λ s accum. do sec ← unwrap (k.secret_key_from_slice s); unwrap (k.add_tweak accum sec))
        (rest_of s_values) secret
    where
      rest_of : List Bytes → List Bytes
      rest_of [] = []
      rest_of (x ∷ xs) = xs

  unfoldable pub sign_cet :
      Transaction → Bytes → List (List Bytes) → Bytes → Bytes → Bytes → ℕ → Result Error Transaction
  sign_cet cet adaptor_signature oracle_signatures funding_sk other_pk funding_script_pubkey
        fund_output_value =
      do
        adaptor_secret ← signatures_to_secret oracle_signatures
        adapted_sig ← ok_or (k.decrypt adaptor_signature adaptor_secret) secp256k1
        sign_multi_sig_input cet adapted_sig other_pk funding_sk funding_script_pubkey
            fund_output_value 0
