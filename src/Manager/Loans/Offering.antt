-- ===== src/Manager/Loans/Offering.antt =====
-- What a received loan offer changes.
use p2p_btc_lending.Prelude.{
  ensure, ensure-ok, ◌≡◌, ◌≢◌, refl, true, false, Bool-cases, inl, inr, ap, ◌∙◌, Option, some, none,
  if◌then◌else◌, bytes_eq, Result, ok,
}
use p2p_btc_lending.Dlc.Types.{Bytes}
use p2p_btc_lending.Messages.{OfferLoanDlc}
use p2p_btc_lending.Contract.Types.{Error, invalid_parameters, OfferedLoanContract, offered_loan}
use p2p_btc_lending.Storage.{get_contract, create_loan_contract}
use p2p_btc_lending.Storage.Prefix.{FitsState, deserialize_contract-serialize_contract}
use p2p_btc_lending.Manager.World.{Manager, World}
use p2p_btc_lending.Manager.Runs.{WhenOk, lift-WhenOk, read-WhenOk, lift-Quiet, read-Quiet}
use p2p_btc_lending.Manager.Loans.{is_none, on_offer_loan_message}

-- The offer that a message is converted to.
abbrev pub offer_of : (m : Manager) → OfferLoanDlc → Bytes → Result Error OfferedLoanContract
offer_of m msg peer =
    m.try_from_offer_loan_dlc msg peer
      (m.derive_signer_key_id false msg.offer_dlc.temporary_contract_id)

-- What a handler that took the offer has done.
pub record Offered (m : Manager) (w w' : World m) (c : OfferedLoanContract) : Type 0 where
  pub valid : m.validate_offered_loan_contract c ≡ ok tt
  pub new : get_contract m.sled m.codecs w.store c.offered_contract.id ≡ ok none
  pub stored :
      (j : Bytes)
      → get_contract m.sled m.codecs w'.store j ≡ (
          if bytes_eq c.offered_contract.id j
          then ok (some (offered_loan c))
          else get_contract m.sled m.codecs w.store j)
  pub silent : (w'.sent ≡ w.sent) × (w'.evm_calls ≡ w.evm_calls)

pub is_none-eq : {A : Type 0} (o : Option A) → is_none o ≡ true → o ≡ none
is_none-eq none h = refl
is_none-eq (some a) h = absurd (cc h)

module _ (m : Manager) (w : World m) (msg : OfferLoanDlc) (peer : Bytes) where
  get_contract-create_loan_contract :
      (c : OfferedLoanContract) (j : Bytes)
      → FitsState m.codecs (offered_loan c)
      → get_contract m.sled m.codecs (create_loan_contract m.sled m.codecs w.store c) j ≡ (
          if bytes_eq c.offered_contract.id j
          then ok (some (offered_loan c))
          else get_contract m.sled m.codecs w.store j)
  unfolding get_contract create_loan_contract
  get_contract-create_loan_contract c j fits =
      rw (m.sled.get-insert w.store.contract_tree c.offered_contract.id _ j)
        (elim (Bool-cases (bytes_eq c.offered_contract.id j)) [
          | inl e ↦
              rw (e, deserialize_contract-serialize_contract m.codecs (offered_loan c) fits) refl
          | inr e ↦ rw e refl
        ])

  abbrev pub Taken : World m → Type 0
  Taken w' = (c : OfferedLoanContract) × (offer_of m msg peer ≡ ok c) × Offered m w w' c

  on_offer_loan_message-WhenOk :
      ((c : OfferedLoanContract) → offer_of m msg peer ≡ ok c → FitsState m.codecs (offered_loan c))
      → WhenOk (λ w' _. Taken w') (on_offer_loan_message m msg peer w)
  unfolding on_offer_loan_message
  on_offer_loan_message-WhenOk fits = lift-WhenOk w (m.validate_offer_loan_dlc msg) _ (λ _ _.
      lift-WhenOk w (offer_of m msg peer) _ (λ c ec.
        lift-WhenOk w (m.validate_offered_loan_contract c) _ (λ _ ev.
          read-WhenOk w (λ s. get_contract m.sled m.codecs s c.offered_contract.id) _
            (λ found ef. lift-WhenOk w (ensure (is_none found) invalid_parameters) _ (λ _ et.
              record {
                holds = λ _ _. (
                  c,
                  ec,
                  record {
                    valid = ev;
                    new = ef ∙ ap ok (is_none-eq found (ensure-ok _ _ et));
                    stored = λ j. get_contract-create_loan_contract c j (fits c ec);
                    silent = (refl, refl);
                  },
                );
              })))))

  -- An offer that is taken is valid, its id was free, and afterwards it is found under its id and
  -- every other contract as before, provided that its numbers fit; nothing is sent.
  pub on_offer_loan_message-ok :
      ((c : OfferedLoanContract) → offer_of m msg peer ≡ ok c → FitsState m.codecs (offered_loan c))
      → (on_offer_loan_message m msg peer w).1 ≡ ok tt
      → Taken (on_offer_loan_message m msg peer w).0
  on_offer_loan_message-ok fits h = (on_offer_loan_message-WhenOk fits).holds tt h

  -- An offer that is not taken leaves everything as it was.
  pub on_offer_loan_message-refused :
      (on_offer_loan_message m msg peer w).1 ≢ ok tt → (on_offer_loan_message m msg peer w).0 ≡ w
  unfolding on_offer_loan_message
  on_offer_loan_message-refused n =
      lift-Quiet w (m.validate_offer_loan_dlc msg) _
        (λ _. lift-Quiet w (offer_of m msg peer) _ (λ c.
          lift-Quiet w (m.validate_offered_loan_contract c) _ (λ _.
            read-Quiet w (λ s. get_contract m.sled m.codecs s c.offered_contract.id) _
              (λ found.
                lift-Quiet w (ensure (is_none found) invalid_parameters) _
                  (λ _ k. absurd (k tt refl))))))
        (λ _. n)
