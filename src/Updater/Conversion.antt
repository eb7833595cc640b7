-- ===== src/Updater/Conversion.antt =====
-- The conversions between the conditions of a contract and those of an offer message: stable-borrow-cli/
-- crates/dlc-manager/src/conversion_utils.rs.
--
-- The payout curves of a numerical descriptor are in floating point; their conversions are parameters.
pub mod Readable
use p2p_btc_lending.Prelude.{
  ℕ, List, [], ◌∷◌, Bool, true, false, Option, none, Result, ok, err, map, collect, ensure, all,
  ◌==◌, get_elem?, ◌>>=◌, ◌>>◌,
}
use p2p_btc_lending.Dlc.Types.{Bytes}
use p2p_btc_lending.Dlc.Checked.{amount_sub}
use p2p_btc_lending.Messages.{
  OracleAnnouncement, OracleParams, EventDescriptor, enum_event, digit_decomposition_event,
  OracleInfo, single, multi, ContractOutcome, SerContractDescriptor, enumerated_contract_descriptor,
  numeric_outcome_contract_descriptor, ContractInfoInner, SerContractInfo, single_contract_info,
  disjoint_contract_info,
}
use p2p_btc_lending.Contract.Types.{
  Error, conversion, EnumerationPayout, ContractDescriptor, enum_descriptor, numerical_descriptor,
  ContractInfo, OfferedContract,
}
use p2p_btc_lending.Contract.Ids.{as_u16}
use p2p_btc_lending.Contract.Info.{of_dlc}
use p2p_btc_lending.Updater.{of_option}

-- A numerical descriptor's message and its parameters, and the descriptor that is made of a message,
-- the parameters, the base and the numbers of digits.
pub record Curves : Type 0 where
  pub to_message : Bytes → Result Error Bytes
  pub difference_params : Bytes → Option OracleParams
  pub of_message : Bytes → Option OracleParams → ℕ → List ℕ → Bytes

-- From a contract to a message.

unfoldable pub ser_outcome : EnumerationPayout → ContractOutcome
ser_outcome x = record { outcome = x.outcome; offer_payout = x.payout.offer }

abbrev params_of : Curves → ContractDescriptor → Option OracleParams
params_of cu (enum_descriptor e) = none
params_of cu (numerical_descriptor n) = cu.difference_params n

-- One oracle is sent without a threshold.
unfoldable pub ser_oracles : Curves → ContractInfo → List OracleAnnouncement → OracleInfo
ser_oracles cu c (x ∷ []) = single x
ser_oracles cu c announcements = multi (record {
  threshold = as_u16 c.threshold;
  oracle_announcements = announcements;
  oracle_params = params_of cu c.contract_descriptor;
})

unfoldable pub ser_descriptor : Curves → ContractDescriptor → Result Error SerContractDescriptor
unfolding ser_outcome
ser_descriptor cu (enum_descriptor e) = ok (enumerated_contract_descriptor (map ser_outcome e))
ser_descriptor cu (numerical_descriptor n) = do
  message ← cu.to_message n
  ok (numeric_outcome_contract_descriptor message)

unfoldable pub ser_info : Curves → ContractInfo → Result Error ContractInfoInner
ser_info cu c = do
  descriptor ← ser_descriptor cu c.contract_descriptor
  ok (record {
    contract_descriptor = descriptor;
    oracle_info = ser_oracles cu c c.oracle_announcements;
  })

abbrev pub ser_of : ℕ → List ContractInfoInner → SerContractInfo
ser_of total (x ∷ []) = single_contract_info total x
ser_of total infos = disjoint_contract_info total infos

-- `SerContractInfo::from(&OfferedContract)`
unfoldable pub ser_contract_info : Curves → OfferedContract → Result Error SerContractInfo
ser_contract_info cu o = do
  infos ← collect (ser_info cu) o.contract_info
  ok (ser_of o.total_collateral infos)

-- From a message to a contract.

unfoldable pub get_total_collateral : SerContractInfo → ℕ
get_total_collateral (single_contract_info total info) = total
get_total_collateral (disjoint_contract_info total infos) = total

abbrev pub inner_contract_infos : SerContractInfo → List ContractInfoInner
inner_contract_infos (single_contract_info total info) = info ∷ []
inner_contract_infos (disjoint_contract_info total infos) = infos

unfoldable pub read_outcome : ℕ → ContractOutcome → Result Error EnumerationPayout
read_outcome total_collateral x = do
  accept ← of_dlc (amount_sub total_collateral x.offer_payout)
  ok (record { outcome = x.outcome; payout = record { offer = x.offer_payout; accept = accept } })

unfoldable pub announcements_of : OracleInfo → List OracleAnnouncement
announcements_of (single x) = x ∷ []
announcements_of (multi m) = m.oracle_announcements

unfoldable pub threshold_of : OracleInfo → ℕ
threshold_of (single x) = 1
threshold_of (multi m) = m.threshold

abbrev read_params : OracleInfo → Option OracleParams
read_params (single x) = none
read_params (multi m) = m.oracle_params

abbrev pub is_enum_event : EventDescriptor → Bool
is_enum_event (enum_event outcomes) = true
is_enum_event (digit_decomposition_event d) = false

unfoldable expected_base : EventDescriptor → Result Error ℕ
expected_base (enum_event outcomes) = err conversion
expected_base (digit_decomposition_event d) = ok d.base

unfoldable nb_digits_of : ℕ → EventDescriptor → Result Error ℕ
nb_digits_of base (enum_event outcomes) = err conversion
nb_digits_of base (digit_decomposition_event d) = do
  ensure (d.base == base) conversion
  ok d.nb_digits

unfoldable pub read_descriptor :
    Curves → ℕ → SerContractDescriptor → OracleInfo → Result Error ContractDescriptor
unfolding expected_base nb_digits_of
read_descriptor cu total_collateral (enumerated_contract_descriptor payouts) info = do
  outcome_payouts ← collect (read_outcome total_collateral) payouts
  let events = announcements_of info
  ensure (all (λ x. is_enum_event x.oracle_event.event_descriptor) events) conversion
  ok (enum_descriptor outcome_payouts)
read_descriptor cu total_collateral (numeric_outcome_contract_descriptor numeric) info = do
  first ← of_option (get_elem? (announcements_of info) 0)
  base ← expected_base first.oracle_event.event_descriptor
  nb_digits ←
      collect (λ x. nb_digits_of base x.oracle_event.event_descriptor) (announcements_of info)
  ok (numerical_descriptor (cu.of_message numeric (read_params info) base nb_digits))

unfoldable pub read_info : Curves → ℕ → ContractInfoInner → Result Error ContractInfo
read_info cu total_collateral c = do
  descriptor ← read_descriptor cu total_collateral c.contract_descriptor c.oracle_info
  ok (record {
    contract_descriptor = descriptor;
    oracle_announcements = announcements_of c.oracle_info;
    threshold = threshold_of c.oracle_info;
  })

unfoldable pub get_contract_info_and_announcements :
    Curves → SerContractInfo → Result Error (List ContractInfo)
get_contract_info_and_announcements cu c =
    collect (read_info cu (get_total_collateral c)) (inner_contract_infos c)
