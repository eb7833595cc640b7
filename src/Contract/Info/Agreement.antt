-- ===== src/Contract/Info/Agreement.antt =====
-- The conditions of a contract that are enumerations: what one party signs, the other verifies.
use p2p_btc_lending.Prelude.{
  ℕ, ◌+◌, ◌≡◌, refl, sym, ap, ◌∙◌, List, length, ok, map_err-eq-ok, >>=-eq-ok,
}
use p2p_btc_lending.Dlc.Types.{Bytes, Transaction, Bitcoin}
use p2p_btc_lending.Dlc.Signing.{Secp}
use p2p_btc_lending.Dlc.Signing.Schemes.{IsSound, IsHashing}
use p2p_btc_lending.Contract.Types.{
  EnumerationPayout, ContractInfo, AdaptorInfo, enum, enum_descriptor, dlc_error,
}
use p2p_btc_lending.Contract.Enum
use p2p_btc_lending.Contract.Enum.{Spending, push_signature}
use p2p_btc_lending.Contract.Enum.Agreement.{
  SitsAt, verify_adaptor_info-signatures, Covers, get_adaptor_signatures_again,
}
use p2p_btc_lending.Contract.Info.{
  Numerical, get_payouts, descriptor_payouts, get_adaptor_info, get_adaptor_signatures,
  verify_adaptor_info, verify_and_get_adaptor_info, spending_of, precompute_points,
  signed_descriptor, verified_descriptor, signed_again, check_descriptor, of_dlc,
}

-- The condition is an enumeration of outcomes.
abbrev pub IsEnum : ContractInfo → Type 0
IsEnum c = (e : List EnumerationPayout) × (c.contract_descriptor ≡ enum_descriptor e)

module _ (b : Bitcoin) (k : Secp) (num : Numerical) (c : ContractInfo) (is_enum : IsEnum c) where
  -- The payouts of an enumeration do not depend on the collateral.
  pub get_payouts-enum :
      (total total' : ℕ) → get_payouts b k num c total ≡ get_payouts b k num c total'
  unfolding get_payouts descriptor_payouts
  get_payouts-enum total total' =
      ap (λ d. descriptor_payouts b k num d total) is_enum.1
      ∙ sym (ap (λ d. descriptor_payouts b k num d total') is_enum.1)

  -- What is signed for an enumeration, and that its info says so.
  pub get_adaptor_info-enum :
      (total : ℕ) (sk script : Bytes) (value : ℕ) (cets : List Transaction) (start : ℕ)
      (info : AdaptorInfo) (sigs : List Bytes)
      → get_adaptor_info b k num c total sk script value cets start ≡ ok (info, sigs)
      → (info ≡ enum)
        × (Enum.get_adaptor_signatures b k is_enum.0 (spending_of c script value) cets sk ≡ ok sigs)
  unfolding get_adaptor_info signed_descriptor Enum.get_adaptor_info
  get_adaptor_info-enum total sk script value cets start info sigs e =
      let signing =
        Enum.get_adaptor_signatures b k is_enum.0 (spending_of c script value) cets sk in
      let e1 =
        map_err-eq-ok dlc_error
          (Enum.get_adaptor_info b k is_enum.0 (spending_of c script value) cets sk)
          (sym (
              ap
                (λ d.
                  signed_descriptor b k num d (spending_of c script value)
                    (precompute_points b k num c) total sk cets start)
                is_enum.1)
            ∙ e) in
      let (sigs', e2, e3) = >>=-eq-ok signing (λ s. ok (enum, s)) e1 in
      let same : (enum, sigs') ≡ (info, sigs) = cc in
      let same' : sigs' ≡ sigs = ap (λ (p : AdaptorInfo × List Bytes). p.1) same in
      (sym (ap (λ (p : AdaptorInfo × List Bytes). p.0) same), rw same' at e2)

  -- The verifying party finds the signatures where they stand in the message.
  pub verify_and_get_adaptor_info-get :
      (sound : IsSound k) (total total' : ℕ) (sk script : Bytes) (value : ℕ)
      (cets : List Transaction) (start : ℕ) (info : AdaptorInfo) (sigs all : List Bytes) (n : ℕ)
      → get_adaptor_info b k num c total sk script value cets start ≡ ok (info, sigs)
      → SitsAt all n sigs
      → verify_and_get_adaptor_info b k num c total' (k.public_key sk) script value cets all n
        ≡ ok (info, n + length sigs)
  unfolding verify_and_get_adaptor_info verified_descriptor Enum.verify_and_get_adaptor_info
  verify_and_get_adaptor_info-get sound total total' sk script value cets start info sigs all n e
        h =
      let (is, made) = get_adaptor_info-enum total sk script value cets start info sigs e in
      let checked =
        verify_adaptor_info-signatures b k sound (spending_of c script value) cets sk all n
          is_enum.0 sigs made h in
      ap
        (λ d.
          verified_descriptor b k num d (spending_of c script value) (precompute_points b k num c)
            total' (k.public_key sk) cets all n)
        is_enum.1
      ∙ rw (checked, is) refl

  -- The signatures of the answer are found in the same way.
  pub verify_adaptor_info-get :
      (sound : IsSound k) (sk script : Bytes) (value : ℕ) (cets : List Transaction)
      (sigs all : List Bytes) (n : ℕ)
      → get_adaptor_signatures b k num c enum sk script value cets ≡ ok sigs
      → SitsAt all n sigs
      → verify_adaptor_info b k num c (k.public_key sk) script value cets all n enum
        ≡ ok (n + length sigs)
  unfolding verify_adaptor_info check_descriptor get_adaptor_signatures signed_again
  verify_adaptor_info-get sound sk script value cets sigs all n e h =
      let made =
        map_err-eq-ok dlc_error
          (Enum.get_adaptor_signatures b k is_enum.0 (spending_of c script value) cets sk)
          (sym (
              ap
                (λ d.
                  signed_again b k num enum d (spending_of c script value)
                    (precompute_points b k num c) sk cets)
                is_enum.1)
            ∙ e) in
      let checked =
        verify_adaptor_info-signatures b k sound (spending_of c script value) cets sk all n
          is_enum.0 sigs made h in
      ap
        (λ d.
          check_descriptor b k num d enum (spending_of c script value) (precompute_points b k num c)
            (k.public_key sk) cets all n)
        is_enum.1
      ∙ rw checked refl

  pub get_adaptor_signatures-get :
      (hashing : IsHashing k) (total : ℕ) (sk own script : Bytes) (value : ℕ)
      (cets whole : List Transaction) (start : ℕ) (info : AdaptorInfo) (sigs : List Bytes)
      → Covers cets whole
      → get_adaptor_info b k num c total sk script value cets start ≡ ok (info, sigs)
      → (sigs' : List Bytes) × (get_adaptor_signatures b k num c enum own script value whole
          ≡ ok sigs')
  unfolding get_adaptor_signatures signed_again
  get_adaptor_signatures-get hashing total sk own script value cets whole start info sigs covers e =
      let (_, made) = get_adaptor_info-enum total sk script value cets start info sigs e in
      let (sigs', made') =
        get_adaptor_signatures_again b k hashing (spending_of c script value) cets whole covers sk
          own is_enum.0 sigs made in
      (
        sigs',
        ap
              (λ d.
                signed_again b k num enum d (spending_of c script value)
                  (precompute_points b k num c) own whole)
              is_enum.1
            ∙ ap of_dlc made',
      )
