-- ===== src/Contract/Info.antt =====
-- The conditions of a contract and its oracles: `ContractInfo` of stable-borrow-cli/crates/
-- dlc-manager/src/contract/contract_info.rs.
--
-- The functions of a numerical descriptor and of its tries, whose payouts are in floating point, are
-- parameters.
pub mod Agreement
use p2p_btc_lending.Prelude.{
  ℕ, zero, suc, ◌+◌, List, [], ◌∷◌, ◌==◌, Result, ok, err, panic, map, map_err, collect, ensure,
  length, ◌>>=◌, ◌>>◌,
}
use p2p_btc_lending.Dlc.Types.{Bytes, Transaction, Payout, Bitcoin}
use p2p_btc_lending.Dlc.Types
use p2p_btc_lending.Dlc.Signing.{Secp, OracleInfo, schnorrsig_compute_sig_point}
use p2p_btc_lending.Messages.{
  OracleAnnouncement, EventDescriptor, enum_event, digit_decomposition_event,
}
use p2p_btc_lending.Contract.Types.{
  Error, dlc_error, invalid_parameters, ContractInfo, ContractDescriptor, enum_descriptor,
  numerical_descriptor, AdaptorInfo, enum, numerical, numerical_with_difference,
}
use p2p_btc_lending.Contract.Enum
use p2p_btc_lending.Contract.Enum.{Spending}

-- What is called of numerical_descriptor.rs and of the tries, and a number's text.
pub record Numerical : Type 0 where
  pub get_payouts : Bytes → ℕ → Result Error (List Payout)
  pub get_adaptor_info :
      Bytes
      → ℕ
      → Spending
      → List (List (List Bytes))
      → List Transaction
      → Bytes
      → ℕ
      → Result Error (AdaptorInfo × List Bytes)
  pub verify_and_get_adaptor_info :
      Bytes
      → ℕ
      → Spending
      → List (List (List Bytes))
      → List Transaction
      → List Bytes
      → Bytes
      → ℕ
      → Result Error (AdaptorInfo × ℕ)
  pub sign :
      Bytes
      → Spending
      → List (List (List Bytes))
      → List Transaction
      → Bytes
      → Result Error (List Bytes)
  pub verify :
      Bytes
      → Spending
      → List (List (List Bytes))
      → List Transaction
      → List Bytes
      → Bytes
      → Result Error ℕ
  pub to_string : ℕ → Bytes

unfoldable pub get_oracle_infos : ContractInfo → List OracleInfo
get_oracle_infos c =
    map
      (λ (x : OracleAnnouncement). record {
        public_key = x.oracle_public_key;
        nonces = x.oracle_event.oracle_nonces;
      })
      c.oracle_announcements

-- The contract's oracles, with the script and the value of the output that is spent.
abbrev pub spending_of : ContractInfo → Bytes → ℕ → Spending
spending_of c script value = record {
  oracle_infos = get_oracle_infos c;
  threshold = c.threshold;
  funding_script_pubkey = script;
  fund_output_value = value;
}

-- `map_err` of the errors of the crate dlc, and `?` on them
abbrev pub of_dlc {ℓ} : {A : Type ℓ} → Result Types.Error A → Result Error A
of_dlc r = map_err dlc_error r

-- `start..start + n`
abbrev range_from : ℕ → ℕ → List ℕ
range_from start zero = []
range_from start (suc n) = start ∷ range_from (start + 1) n

module _ (b : Bitcoin) (k : Secp) (num : Numerical) where
  unfoldable pub descriptor_payouts : ContractDescriptor → ℕ → Result Error (List Payout)
  descriptor_payouts (enum_descriptor e) total_collateral = ok (Enum.get_payouts e)
  descriptor_payouts (numerical_descriptor n) total_collateral = num.get_payouts n total_collateral

  unfoldable pub get_payouts : ContractInfo → ℕ → Result Error (List Payout)
  get_payouts c total_collateral = descriptor_payouts c.contract_descriptor total_collateral

  -- The points of one nonce, for each digit below the base.
  unfoldable digit_points : Bytes → ℕ → Bytes → Result Error (List Bytes)
  digit_points pubkey base nonce =
      collect
        (λ j. of_dlc (schnorrsig_compute_sig_point k pubkey nonce (b.sha256 (num.to_string j))))
        (range_from 0 base)

  unfoldable announced_points : OracleAnnouncement → Result Error (List (List Bytes))
  announced_points x = elim x.oracle_event.event_descriptor [
    | enum_event outcomes ↦ err invalid_parameters
    | digit_decomposition_event d ↦ do
      let nonces = x.oracle_event.oracle_nonces
      ensure (d.nb_digits == length nonces) invalid_parameters
      collect (digit_points x.oracle_public_key d.base) nonces
  ]

  unfoldable pub precompute_points : ContractInfo → Result Error (List (List (List Bytes)))
  unfolding announced_points digit_points
  precompute_points c = collect announced_points c.oracle_announcements

  -- The branches of `get_adaptor_signatures`.
  unfoldable pub signed_again :
      AdaptorInfo
      → ContractDescriptor
      → Spending
      → Result Error (List (List (List Bytes)))
      → Bytes
      → List Transaction
      → Result Error (List Bytes)
  signed_again enum (enum_descriptor e) spending points fund_privkey cets =
      of_dlc (Enum.get_adaptor_signatures b k e spending cets fund_privkey)
  signed_again enum (numerical_descriptor n) spending points fund_privkey cets = panic
  signed_again (numerical trie) d spending points fund_privkey cets = do
    found ← points
    num.sign trie spending found cets fund_privkey
  signed_again (numerical_with_difference trie) d spending points fund_privkey cets = do
    found ← points
    num.sign trie spending found cets fund_privkey

  unfoldable pub get_adaptor_signatures :
      ContractInfo → AdaptorInfo → Bytes → Bytes → ℕ → List Transaction → Result Error (List Bytes)
  get_adaptor_signatures c adaptor_info fund_privkey script value cets =
      signed_again adaptor_info c.contract_descriptor (spending_of c script value)
        (precompute_points c) fund_privkey cets

  -- The branches of `verify_and_get_adaptor_info`.
  unfoldable pub verified_descriptor :
      ContractDescriptor
      → Spending
      → Result Error (List (List (List Bytes)))
      → ℕ
      → Bytes
      → List Transaction
      → List Bytes
      → ℕ
      → Result Error (AdaptorInfo × ℕ)
  verified_descriptor (enum_descriptor e) spending points total_collateral fund_pubkey cets
        adaptor_sigs adaptor_sig_start =
      of_dlc (
        Enum.verify_and_get_adaptor_info b k e spending cets adaptor_sigs fund_pubkey
          adaptor_sig_start)
  verified_descriptor (numerical_descriptor n) spending points total_collateral fund_pubkey cets
        adaptor_sigs adaptor_sig_start =
      do
        found ← points
        num.verify_and_get_adaptor_info n total_collateral spending found cets adaptor_sigs
            fund_pubkey adaptor_sig_start

  unfoldable pub verify_and_get_adaptor_info :
      ContractInfo
      → ℕ
      → Bytes
      → Bytes
      → ℕ
      → List Transaction
      → List Bytes
      → ℕ
      → Result Error (AdaptorInfo × ℕ)
  verify_and_get_adaptor_info c total_collateral fund_pubkey script value cets adaptor_sigs
        adaptor_sig_start =
      verified_descriptor c.contract_descriptor (spending_of c script value) (precompute_points c)
        total_collateral fund_pubkey cets adaptor_sigs adaptor_sig_start

  -- The branches of `verify_adaptor_info`.
  unfoldable pub check_descriptor :
      ContractDescriptor
      → AdaptorInfo
      → Spending
      → Result Error (List (List (List Bytes)))
      → Bytes
      → List Transaction
      → List Bytes
      → ℕ
      → Result Error ℕ
  check_descriptor (enum_descriptor e) info spending points fund_pubkey cets adaptor_sigs
        adaptor_sig_start =
      of_dlc
        (Enum.verify_adaptor_info b k e spending cets adaptor_sigs fund_pubkey adaptor_sig_start)
  check_descriptor (numerical_descriptor n) enum spending points fund_pubkey cets adaptor_sigs
        adaptor_sig_start =
      panic
  check_descriptor (numerical_descriptor n) (numerical trie) spending points fund_pubkey cets
        adaptor_sigs adaptor_sig_start =
      do found ← points; num.verify trie spending found cets adaptor_sigs fund_pubkey
  check_descriptor (numerical_descriptor n) (numerical_with_difference trie) spending points
        fund_pubkey cets adaptor_sigs adaptor_sig_start =
      do found ← points; num.verify trie spending found cets adaptor_sigs fund_pubkey

  unfoldable pub verify_adaptor_info :
      ContractInfo
      → Bytes
      → Bytes
      → ℕ
      → List Transaction
      → List Bytes
      → ℕ
      → AdaptorInfo
      → Result Error ℕ
  verify_adaptor_info c fund_pubkey script value cets adaptor_sigs adaptor_sig_start adaptor_info =
      check_descriptor c.contract_descriptor adaptor_info (spending_of c script value)
        (precompute_points c) fund_pubkey cets adaptor_sigs adaptor_sig_start

  -- The branches of `get_adaptor_info`.
  unfoldable pub signed_descriptor :
      ContractDescriptor
      → Spending
      → Result Error (List (List (List Bytes)))
      → ℕ
      → Bytes
      → List Transaction
      → ℕ
      → Result Error (AdaptorInfo × List Bytes)
  signed_descriptor (enum_descriptor e) spending points total_collateral fund_privkey cets
        adaptor_index_start =
      of_dlc (Enum.get_adaptor_info b k e spending cets fund_privkey)
  signed_descriptor (numerical_descriptor n) spending points total_collateral fund_privkey cets
        adaptor_index_start =
      do
        found ← points
        num.get_adaptor_info n total_collateral spending found cets fund_privkey adaptor_index_start

  unfoldable pub get_adaptor_info :
      ContractInfo
      → ℕ
      → Bytes
      → Bytes
      → ℕ
      → List Transaction
      → ℕ
      → Result Error (AdaptorInfo × List Bytes)
  get_adaptor_info c total_collateral fund_privkey script value cets adaptor_index_start =
      signed_descriptor c.contract_descriptor (spending_of c script value) (precompute_points c)
        total_collateral fund_privkey cets adaptor_index_start
