-- ===== src/Dlc/Signing/Schemes.antt =====
-- What the signature schemes of `secp256k1_zkp` promise, and what it means for the functions that
-- sign and verify.
use p2p_btc_lending.Prelude.{ℕ, ◌≡◌, refl, sym, true, some, get_elem?, ok, >>=-eq-ok, >>=-ok}
use p2p_btc_lending.Dlc.Types.{Bytes, TxIn, Transaction}
use p2p_btc_lending.Dlc.Signing.{
  Secp, verify_tx_input_sig, get_raw_sig_for_tx_input, get_sig_hash_msg,
  create_cet_adaptor_sig_from_point, verify_cet_adaptor_sig_from_point,
}

-- A signature verifies under the key that made it, and so does an adaptor signature.
pub record IsSound (k : Secp) : Type 0 where
  pub ecdsa :
      (msg sk : Bytes) → k.verify_ecdsa msg (k.sign_ecdsa_low_r msg sk) (k.public_key sk) ≡ true
  pub adaptor :
      (msg sk point : Bytes)
      → k.verify_adaptor (k.encrypt msg sk point) msg (k.public_key sk) point ≡ true

-- A signature hash exists for every input that the transaction has.
pub record IsHashing (k : Secp) : Type 0 where
  pub hashes :
      (tx : Transaction) (i : ℕ) (x : TxIn) (script : Bytes) (value : ℕ)
      → get_elem? tx.input i ≡ some x
      → (h : Bytes) × (k.p2wsh_signature_hash tx i script value ≡ some h)

module _ (k : Secp) (sound : IsSound k) where
  pub verify_tx_input_sig-get_raw_sig :
      (tx : Transaction) (i : ℕ) (script : Bytes) (value : ℕ) (sk sig : Bytes)
      → get_raw_sig_for_tx_input k tx i script value sk ≡ ok sig
      → verify_tx_input_sig k sig tx i script value (k.public_key sk) ≡ ok tt
  unfolding get_raw_sig_for_tx_input verify_tx_input_sig
  verify_tx_input_sig-get_raw_sig tx i script value sk sig e =
      let (msg, hashed, signed) =
        >>=-eq-ok (get_sig_hash_msg k tx i script value) (λ msg. ok (k.sign_ecdsa_low_r msg sk))
          e in
      let same : k.sign_ecdsa_low_r msg sk ≡ sig = cc in
      >>=-ok _ hashed (rw (sym same, sound.ecdsa msg sk) refl)

  pub verify_adaptor-create :
      (cet : Transaction) (point sk script : Bytes) (value : ℕ) (sig : Bytes)
      → create_cet_adaptor_sig_from_point k cet point sk script value ≡ ok sig
      → verify_cet_adaptor_sig_from_point k sig cet point (k.public_key sk) script value ≡ ok tt
  unfolding create_cet_adaptor_sig_from_point verify_cet_adaptor_sig_from_point
  verify_adaptor-create cet point sk script value sig e =
      let (msg, hashed, signed) =
        >>=-eq-ok (get_sig_hash_msg k cet 0 script value) (λ msg. ok (k.encrypt msg sk point)) e in
      let same : k.encrypt msg sk point ≡ sig = cc in
      >>=-ok _ hashed (rw (sym same, sound.adaptor msg sk point) refl)
