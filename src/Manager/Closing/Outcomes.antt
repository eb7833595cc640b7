-- ===== src/Manager/Closing/Outcomes.antt =====
-- What the steps that end a contract do.
use p2p_btc_lending.Prelude.{
  true, Option, ℕ, ap, ◌==◌, false, ◌&&◌, List, ◌∷◌, some, ltb, leb, ◌≤◌, ◌≡◌, refl, arith,
  if◌then◌else◌, bytes_eq, ok, Bool-cases, inl, inr,
}
use p2p_btc_lending.Dlc.Types.{Bytes, Transaction}
use p2p_btc_lending.Messages.{OracleAttestation}
use p2p_btc_lending.Contract.Types.{SignedContract, confirmed}
use p2p_btc_lending.Contract.Ids.{get_id, get_contract_id}
use p2p_btc_lending.Contract.Pnl.{compute_pnl}
use p2p_btc_lending.Storage.{get_contract}
use p2p_btc_lending.Storage.Prefix.{FitsState}
use p2p_btc_lending.Manager.World.{Manager, World, ◌>>=◌}
use p2p_btc_lending.Manager.Runs.{Always, lift-Always}
use p2p_btc_lending.Manager.Updates.{get_contract-update}
use p2p_btc_lending.Manager.Closing.{
  pre_closed_by, closed_by, close_contract, check_signed_contract,
}

ltb-ge : (n k : ℕ) → k ≤ n → ltb n k ≡ false
ltb-ge n k h = ground arith

is_zero : (n : ℕ) → (n == 0) ≡ true → n ≡ 0
is_zero n h = ground arith

is_positive : (n : ℕ) → (n == 0) ≡ false → 1 ≤ n
is_positive n h = ground arith

module _ (m : Manager) (w : World m) where
  closed_by-world :
      (c : SignedContract) (as' : Option (List OracleAttestation)) (tx : Transaction)
      → Always (λ w'. w' ≡ w) (closed_by m c as' tx w)
  unfolding closed_by
  closed_by-world c as' tx = lift-Always w (compute_pnl c.accepted_contract tx) _ refl (λ _ _.
      lift-Always w (get_contract_id m.bitcoin c.accepted_contract) _ refl
        (λ _ _. record { after = refl }))

  -- Where the closing transaction has `n` confirmations and can be sent: below six confirmations the
  -- contract is pre-closed, and the transaction is sent only if it has none; from six on the result is
  -- that of `closed_by`, and nothing is sent or stored.
  pub close_contract_lem :
      (c : SignedContract) (cet : Transaction) (as' : List OracleAttestation) (n : ℕ)
      → m.get_transaction_confirmations (m.bitcoin.compute_txid cet) ≡ ok n
      → m.send_transaction cet ≡ ok tt
      → close_contract m c cet as' w ≡ (
          if ltb n 6
          then (
            record w { sent = if n == 0 then cet ∷ w.sent else w.sent },
            ok (pre_closed_by m c (some as') cet),
          )
          else (w, (closed_by m c (some as') cet w).1))
  unfolding close_contract ◌>>=◌
  close_contract_lem c cet as' n h s = elim (Bool-cases (n == 0)) [
    | inl z ↦ rw (h, is_zero n z, s) refl
    | inr z ↦ elim (Bool-cases (ltb n 6)) [
      | inl f ↦ rw (h, ltb-ge n 1 (is_positive n z), f, z) refl
      | inr f ↦
          rw (h, ltb-ge n 1 (is_positive n z), f)
            (ap (λ v. (v, (closed_by m c (some as') cet w).1))
              (closed_by-world c (some as') cet).after)
    ]
  ]

  -- Where the contract's numbers fit and its funding transaction has `n` confirmations, the check
  -- of a signed contract makes it confirmed exactly from six confirmations on, and leaves every other
  -- contract as it was.
  pub get_contract-check_signed_contract :
      (c : SignedContract) (n : ℕ) (id j : Bytes)
      → FitsState m.codecs (confirmed c)
      → get_id m.bitcoin (confirmed c) ≡ ok id
      → m.get_transaction_confirmations
          (m.bitcoin.compute_txid c.accepted_contract.dlc_transactions.fund)
        ≡ ok n
      → get_contract m.sled m.codecs (check_signed_contract m c w).0.store j ≡ (
          if leb 6 n && bytes_eq id j
          then ok (some (confirmed c))
          else get_contract m.sled m.codecs w.store j)
  unfolding check_signed_contract ◌>>=◌
  get_contract-check_signed_contract c n id j fits e h = elim (Bool-cases (leb 6 n)) [
    | inl l ↦ rw (h, l) (get_contract-update m w (confirmed c) id j refl fits e)
    | inr l ↦ rw (h, l) refl
  ]
