-- ===== src/Storage/Queries.antt =====
-- What the queries for the contracts in a state return.
use p2p_btc_lending.Prelude.{
  ℕ, true, ◌≡◌, refl, ap, ◌∙◌, List, [], ◌∷◌, some, ◌==◌, Bool-cases, Option-cases, inl, inr, All,
  arith, ok, OnOk, OnOk-ok, OnOk-then,
}
use p2p_btc_lending.Dlc.Types.{Bytes}
use p2p_btc_lending.Contract.Types.{
  Contract, OfferedLoanContract, SignedContract, PreClosedContract, offered_loan, signed, confirmed,
  pre_closed,
}
use p2p_btc_lending.Storage.Interface.{Sled, Codec, Codecs}
use p2p_btc_lending.Storage.Prefix.{deserialize_contract}
use p2p_btc_lending.Storage.{
  Store, values_with_prefix, get_contract, get_signed_contracts, get_confirmed_contracts,
  get_loan_contract_offers, get_preclosed_contracts,
}

-- A contract is stored under some id.
abbrev pub IsStored : (d : Sled) → Codecs → Store d → Contract → Type 0
IsStored d cs s c = (id : Bytes) × (get_contract d cs s id ≡ ok (some c))

-- How one state is read.
abbrev Reads : {A : Type 0} → Codecs → Codec A → ℕ → (A → Contract) → Type 0
Reads {A} cs codec p con =
    (xs : Bytes) (a : A)
    → codec.deserialize xs ≡ some a
    → deserialize_contract cs (p ∷ xs) ≡ ok (con a)

same-eq : (x y : ℕ) → (x == y) ≡ true → x ≡ y
same-eq x y h = ground arith

module _ (d : Sled) (cs : Codecs) (s : Store d) where
  IsStored-entry :
      {A : Type 0} (codec : Codec A) (p : ℕ) (con : A → Contract) (k xs : Bytes) (a : A)
      → Reads cs codec p con
      → d.get s.contract_tree k ≡ some (p ∷ xs)
      → codec.deserialize xs ≡ some a
      → IsStored d cs s (con a)
  unfolding get_contract
  IsStored-entry codec p con k xs a reads e h = (k, rw (e, reads xs a h) refl)

  values_with_prefix-OnOk :
      {A : Type 0} (codec : Codec A) (p : ℕ) (con : A → Contract) (es : List (Bytes × Bytes))
      → Reads cs codec p con
      → All (λ e. d.get s.contract_tree e.0 ≡ some e.1) es
      → OnOk (λ as'. All (λ a. IsStored d cs s (con a)) as') (values_with_prefix codec p es)
  unfolding values_with_prefix
  values_with_prefix-OnOk codec p con [] reads h = tt
  values_with_prefix-OnOk codec p con ((k, []) ∷ es) reads h = tt
  values_with_prefix-OnOk codec p con ((k, x ∷ xs) ∷ es) reads h =
      OnOk-then (All (λ a. IsStored d cs s (con a))) (All (λ a. IsStored d cs s (con a)))
        (values_with_prefix codec p es) _ (values_with_prefix-OnOk codec p con es reads h.1)
        (λ rest all. elim (Bool-cases (x == p)) [
          | inr e ↦ rw e all
          | inl e ↦ elim (Option-cases (codec.deserialize xs)) [
            | inl n ↦ rw (e, n) all
            | inr (a, f) ↦
                rw (e, f)
                  (
                    IsStored-entry codec p con k xs a reads
                        (h.0 ∙ ap (λ y. some (y ∷ xs)) (same-eq x p e)) f,
                    all,
                  )
          ]
        ])

  -- The query for loans on offer returns only contracts that the store holds in that state.
  pub get_loan_contract_offers-IsStored :
      (found : List OfferedLoanContract)
      → get_loan_contract_offers d cs s ≡ ok found
      → All (λ c. IsStored d cs s (offered_loan c)) found
  unfolding get_loan_contract_offers deserialize_contract
  get_loan_contract_offers-IsStored found h =
      OnOk-ok (All (λ c. IsStored d cs s (offered_loan c))) _
        (values_with_prefix-OnOk cs.offered_loan_codec 2 offered_loan _ (λ xs a e. rw e refl)
          (d.iter_sound s.contract_tree))
        h

  -- The query for signed contracts returns only contracts that the store holds in that state.
  pub get_signed_contracts-IsStored :
      (found : List SignedContract)
      → get_signed_contracts d cs s ≡ ok found
      → All (λ c. IsStored d cs s (signed c)) found
  unfolding get_signed_contracts deserialize_contract
  get_signed_contracts-IsStored found h =
      OnOk-ok (All (λ c. IsStored d cs s (signed c))) _
        (values_with_prefix-OnOk cs.signed_codec 5 signed _ (λ xs a e. rw e refl)
          (d.iter_sound s.contract_tree))
        h

  -- The query for confirmed contracts returns only contracts that the store holds in that state.
  pub get_confirmed_contracts-IsStored :
      (found : List SignedContract)
      → get_confirmed_contracts d cs s ≡ ok found
      → All (λ c. IsStored d cs s (confirmed c)) found
  unfolding get_confirmed_contracts deserialize_contract
  get_confirmed_contracts-IsStored found h =
      OnOk-ok (All (λ c. IsStored d cs s (confirmed c))) _
        (values_with_prefix-OnOk cs.signed_codec 6 confirmed _ (λ xs a e. rw e refl)
          (d.iter_sound s.contract_tree))
        h

  -- The query for pre-closed contracts returns only contracts that the store holds in that state.
  pub get_preclosed_contracts-IsStored :
      (found : List PreClosedContract)
      → get_preclosed_contracts d cs s ≡ ok found
      → All (λ c. IsStored d cs s (pre_closed c)) found
  unfolding get_preclosed_contracts deserialize_contract
  get_preclosed_contracts-IsStored found h =
      OnOk-ok (All (λ c. IsStored d cs s (pre_closed c))) _
        (values_with_prefix-OnOk cs.pre_closed_codec 7 pre_closed _ (λ xs a e. rw e refl)
          (d.iter_sound s.contract_tree))
        h
