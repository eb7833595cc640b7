-- ===== src/Contract/Enum.antt =====
-- A contract over the outcomes of an enumeration: stable-borrow-cli/crates/dlc-manager/src/contract/
-- enum_descriptor.rs and utils.rs of that folder. An `EnumDescriptor` stands as its list of payouts.
pub mod Agreement
use p2p_btc_lending.Prelude.{
  ℕ, zero, suc, ◌+◌, ◌*◌, Bool, true, false, List, [], ◌∷◌, ◌++◌, Option, some, none, ltb, leb,
  ◌==◌, ◌&&◌, Result, ok, err, panic, ensure, unwrap, for_each, at_index, length, map, keep, all,
  if◌then◌else◌, ◌>>=◌, ◌>>◌,
}
use p2p_btc_lending.Dlc.Types.{Bytes, Transaction, Payout, Bitcoin, Error}
use p2p_btc_lending.Dlc.Signing.{
  Secp, OracleInfo, get_adaptor_point_from_oracle_info, create_cet_adaptor_sig_from_point,
  verify_cet_adaptor_sig_from_point,
}
use p2p_btc_lending.Trie.{combinations}
use p2p_btc_lending.Contract.Types.{EnumerationPayout, AdaptorInfo, enum}
use p2p_btc_lending.Contract.Types

unfoldable pub get_payouts : List EnumerationPayout → List Payout
get_payouts outcome_payouts = map (λ (x : EnumerationPayout). x.payout) outcome_payouts

-- `iter().enumerate()`, from `i` on
abbrev pub enumerate {ℓ} : {A : Type ℓ} → ℕ → List A → List (ℕ × A)
enumerate i [] = []
enumerate i (x ∷ xs) = (i, x) ∷ enumerate (i + 1) xs

-- `iter::repeat(x).take(n).collect()`
abbrev pub repeat {ℓ} : {A : Type ℓ} → ℕ → A → List A
repeat zero x = []
repeat (suc n) x = x ∷ repeat n x

-- `contains`
abbrev pub contains : List ℕ → ℕ → Bool
contains [] i = false
contains (x ∷ xs) i = if x == i then true else contains xs i

-- The infos whose indexes the selector has, from index `i` on.
abbrev pub select_from : ℕ → List ℕ → List OracleInfo → List OracleInfo
select_from i selector [] = []
select_from i selector (x ∷ xs) =
    let rest = select_from (i + 1) selector xs in if contains selector i then x ∷ rest else rest

-- The combinations as a list; the iterator ends (`combinations_lem`).
abbrev pub collected : Option (List (List ℕ)) → Result Error (List (List ℕ))
collected none = panic
collected (some cs) = ok cs

-- What the functions of a contract read besides the contract: the oracles, the number of them that
-- must agree, and the output that the transactions spend.
pub record Spending : Type 0 where
  pub oracle_infos : List OracleInfo
  pub threshold : ℕ
  pub funding_script_pubkey : Bytes
  pub fund_output_value : ℕ

module _ (b : Bitcoin) (k : Secp) where
  -- The messages of an outcome, one for each oracle.
  unfoldable pub outcome_messages : ℕ → EnumerationPayout → List (List Bytes)
  outcome_messages threshold x = repeat threshold (b.sha256 x.outcome ∷ [])

  -- The inner loop's body: one combination of the oracles.
  unfoldable pub at_selector {ℓ} :
      {S : Type ℓ}
      → List OracleInfo
      → (Bytes → ℕ → S → Result Error S)
      → ℕ × List (List Bytes)
      → List ℕ
      → S
      → Result Error S
  at_selector oracle_infos callback m selector s = do
    adaptor_point ← get_adaptor_point_from_oracle_info k (select_from 0 selector oracle_infos) m.1
    callback adaptor_point m.0 s

  -- `callback(&adaptor_point, i)` for each outcome and each combination of oracles.
  unfoldable pub iter_outcomes {ℓ} :
      {S : Type ℓ}
      → List EnumerationPayout
      → List OracleInfo
      → ℕ
      → (Bytes → ℕ → S → Result Error S)
      → S
      → Result Error S
  iter_outcomes outcome_payouts oracle_infos threshold callback s = do
    found ← combinations (length oracle_infos) threshold
    selectors ← collected found
    for_each (λ m s. for_each (at_selector oracle_infos callback m) selectors s)
        (enumerate 0 (map (λ x. outcome_messages threshold x) outcome_payouts)) s

  -- The callback of `get_adaptor_signatures`.
  unfoldable pub push_signature :
      Spending → List Transaction → Bytes → Bytes → ℕ → List Bytes → Result Error (List Bytes)
  push_signature spending cets fund_privkey adaptor_point cet_index adaptor_sigs = do
    cet ← at_index cets cet_index
    sig ←
        create_cet_adaptor_sig_from_point k cet adaptor_point fund_privkey
          spending.funding_script_pubkey spending.fund_output_value
    ok (adaptor_sigs ++ sig ∷ [])

  unfoldable pub get_adaptor_signatures :
      List EnumerationPayout → Spending → List Transaction → Bytes → Result Error (List Bytes)
  get_adaptor_signatures outcome_payouts spending cets fund_privkey =
      iter_outcomes outcome_payouts spending.oracle_infos spending.threshold
        (push_signature spending cets fund_privkey) []

  unfoldable pub get_adaptor_info :
      List EnumerationPayout
      → Spending
      → List Transaction
      → Bytes
      → Result Error (AdaptorInfo × List Bytes)
  get_adaptor_info outcome_payouts spending cets fund_privkey = do
    adaptor_sigs ← get_adaptor_signatures outcome_payouts spending cets fund_privkey
    ok (enum, adaptor_sigs)

  -- The callback of `verify_adaptor_info`.
  unfoldable pub check_signature :
      Spending → List Transaction → List Bytes → Bytes → Bytes → ℕ → ℕ → Result Error ℕ
  check_signature spending cets adaptor_sigs fund_pubkey adaptor_point cet_index adaptor_sig_index =
      do
        sig ← at_index adaptor_sigs adaptor_sig_index
        cet ← at_index cets cet_index
        verify_cet_adaptor_sig_from_point k sig cet adaptor_point fund_pubkey
            spending.funding_script_pubkey spending.fund_output_value
        ok (adaptor_sig_index + 1)

  unfoldable pub verify_adaptor_info :
      List EnumerationPayout → Spending → List Transaction → List Bytes → Bytes → ℕ → Result Error ℕ
  verify_adaptor_info outcome_payouts spending cets adaptor_sigs fund_pubkey adaptor_sig_start =
      iter_outcomes outcome_payouts spending.oracle_infos spending.threshold
        (check_signature spending cets adaptor_sigs fund_pubkey) adaptor_sig_start

  unfoldable pub verify_and_get_adaptor_info :
      List EnumerationPayout
      → Spending
      → List Transaction
      → List Bytes
      → Bytes
      → ℕ
      → Result Error (AdaptorInfo × ℕ)
  verify_and_get_adaptor_info outcome_payouts spending cets adaptor_sigs fund_pubkey
        adaptor_sig_start =
      do
        adaptor_sig_index ←
            verify_adaptor_info outcome_payouts spending cets adaptor_sigs fund_pubkey
              adaptor_sig_start
        ok (enum, adaptor_sig_index)
