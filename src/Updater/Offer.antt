-- ===== src/Updater/Offer.antt =====
-- The offers of contracts and loans: offer_contract and offer_loan_contract of stable-borrow-cli/crates/
-- dlc-manager/src/contract_updater.rs, with src/contract/offered_contract.rs in that crate.

pub mod Readable
use p2p_btc_lending.Prelude.{
  ℕ, ◌+◌, ◌%◌, ◌^◌, max, List, [], ◌∷◌, ◌++◌, map, length, Bool, ltb, leb, ◌==◌, ◌||◌, not, true,
  false, Option, none, some, Result, ok, err, ensure, assert, unwrap, for_each, ◌>>=◌, ◌>>◌,
}
use p2p_btc_lending.Dlc.Types.{Bytes, PartyParams}
use p2p_btc_lending.Dlc.Checked.{amount_add}
use p2p_btc_lending.Dlc.Util.{validate_fee_rate}
use p2p_btc_lending.Dlc.Loan.{to_be_bytes}
use p2p_btc_lending.Dlc.Signing.{zip}
use p2p_btc_lending.Messages.{OracleAnnouncement, FundingInput, OfferDlc, OfferLoanDlc}
use p2p_btc_lending.Contract.Types.{
  Error, invalid_parameters, OracleInput, ContractInputInfo, ContractInput, LoanContractInput,
  ContractInfo, OfferedContract, OfferedLoanContract,
}
use p2p_btc_lending.Contract.Ids.{as_u16}
use p2p_btc_lending.Contract.Info.{of_dlc}
use p2p_btc_lending.Updater.{Outside, get_party_params, get_lender_party_params, get_tx_input_infos}
use p2p_btc_lending.Updater.Accept.{protocol_version}
use p2p_btc_lending.Updater.Inputs.{validate_input, validate_loan_input}
use p2p_btc_lending.Updater.Conversion.{
  Curves, ser_contract_info, get_total_collateral, get_contract_info_and_announcements,
}

abbrev later : ℕ → Option ℕ → Option ℕ
later x none = some x
later x (some y) = some (max x y)

-- `iter().max()`
abbrev maximum : List ℕ → Option ℕ
maximum [] = none
maximum (x ∷ xs) = later x (maximum xs)

abbrev flatten : List (List OracleAnnouncement) → List OracleAnnouncement
flatten [] = []
flatten (x ∷ xs) = x ++ flatten xs

-- `none` stands for the error, which the caller's `expect` drops.
unfoldable pub get_latest_maturity_date : List (List OracleAnnouncement) → Option ℕ
get_latest_maturity_date announcements =
    maximum (map (λ x. x.oracle_event.event_maturity_epoch) (flatten announcements))

unfoldable pub info_of_input : ContractInputInfo × List OracleAnnouncement → ContractInfo
info_of_input (x, y) = record {
  contract_descriptor = x.contract_descriptor;
  oracle_announcements = y;
  threshold = x.oracles.threshold;
}

-- A call's random temporary id, its time and the key ids.
pub record Drawn : Type 0 where
  pub temporary_id : Bytes
  pub unix_time_now : ℕ
  pub derive_signer_key_id : Bool → Bytes → Bytes

-- `OfferedContract::new`. The sum of the times wraps, as in a release build.
unfoldable pub new_offered_contract :
    Bytes
    → ContractInput
    → List (List OracleAnnouncement)
    → PartyParams
    → List FundingInput
    → Bytes
    → ℕ
    → ℕ
    → Bytes
    → ℕ
    → Result Error OfferedContract
unfolding info_of_input
new_offered_contract id contract announcements params inputs peer delay locktime keys_id serial = do
  total ← of_dlc (amount_add contract.offer_collateral contract.accept_collateral)
  assert (length contract.contract_infos == length announcements)
  latest_maturity ← unwrap (get_latest_maturity_date announcements)
  ok (record {
    id = id;
    is_offer_party = true;
    contract_info = map info_of_input (zip contract.contract_infos announcements);
    counter_party = peer;
    offer_params = params;
    total_collateral = total;
    funding_inputs = inputs;
    fund_output_serial_id = serial;
    fee_rate_per_vb = contract.fee_rate;
    cet_locktime = locktime;
    refund_locktime = (latest_maturity + delay) % 2 ^ 32;
    keys_id = keys_id;
  })

-- `BITCOIN_CHAINHASH`
abbrev pub bitcoin_chainhash : Bytes
bitcoin_chainhash =
    0x06 ∷ 0x22 ∷ 0x6e ∷ 0x46 ∷ 0x11 ∷ 0x1a ∷ 0x0b ∷ 0x59 ∷ 0xca ∷ 0xaf ∷ 0x12 ∷ 0x60 ∷ 0x43 ∷ 0xeb
    ∷ 0x5b ∷ 0xbf ∷ 0x28 ∷ 0xc3 ∷ 0x4f ∷ 0x3a ∷ 0x5e ∷ 0x33 ∷ 0x2a ∷ 0x1f ∷ 0xc7 ∷ 0xb2 ∷ 0xb7
    ∷ 0x3c ∷ 0xf1 ∷ 0x88 ∷ 0x91 ∷ 0x0f ∷ []

-- `OfferDlc::from(&OfferedContract)`
unfoldable pub offer_dlc_of : Curves → OfferedContract → Result Error OfferDlc
offer_dlc_of cu o = do
  contract_info ← ser_contract_info cu o
  ok (record {
    protocol_version = protocol_version;
    contract_flags = 0;
    chain_hash = bitcoin_chainhash;
    temporary_contract_id = o.id;
    contract_info = contract_info;
    funding_pubkey = o.offer_params.fund_pubkey;
    payout_spk = o.offer_params.payout_script_pubkey;
    payout_serial_id = o.offer_params.payout_serial_id;
    offer_collateral = o.offer_params.collateral;
    funding_inputs = o.funding_inputs;
    change_spk = o.offer_params.change_script_pubkey;
    change_serial_id = o.offer_params.change_serial_id;
    fund_output_serial_id = o.fund_output_serial_id;
    fee_rate_per_vb = o.fee_rate_per_vb;
    cet_locktime = o.cet_locktime;
    refund_locktime = o.refund_locktime;
  })

-- `OfferLoanDlc::from(&OfferedLoanContract)`
unfoldable pub offer_loan_dlc_of : Curves → OfferedLoanContract → Result Error OfferLoanDlc
offer_loan_dlc_of cu l = do
  offer_dlc ← offer_dlc_of cu l.offered_contract
  ok (record {
    collateral_ratio = l.collateral_ratio;
    liquidation_ratio = l.liquidation_ratio;
    interest_rate = l.interest_rate;
    duration = l.duration;
    lender_hash = l.lender_hash;
    offer_dlc = offer_dlc;
  })

module _ (out : Outside) (cu : Curves) where
  unfoldable pub offer_contract :
      Drawn
      → ContractInput
      → List (List OracleAnnouncement)
      → ℕ
      → Bytes
      → Result Error (OfferedContract × OfferDlc)
  offer_contract drawn contract_input announcements refund_delay counter_party = do
    u ← validate_input contract_input
    let keys_id = drawn.derive_signer_key_id true drawn.temporary_id
    signer ← out.derive_contract_signer keys_id
    (party_params, funding_inputs) ←
        get_party_params out contract_input.offer_collateral contract_input.fee_rate signer
    let locktime = drawn.unix_time_now % 2 ^ 32
    let serial = out.serial_id (2 + length funding_inputs)
    offered ←
        new_offered_contract drawn.temporary_id contract_input announcements party_params
          funding_inputs counter_party refund_delay locktime keys_id serial
    message ← offer_dlc_of cu offered
    ok (offered, message)

  -- The loan with its contract.
  abbrev pub loan_of : LoanContractInput → ℕ → OfferedContract → OfferedLoanContract
  loan_of input preimage offered = record {
    offered_contract = offered;
    collateral_ratio = input.collateral_ratio;
    liquidation_ratio = input.liquidation_ratio;
    interest_rate = input.interest_rate;
    duration = input.duration;
    lender_hash = out.bitcoin.sha256 (to_be_bytes 16 preimage);
  }

  unfoldable pub offer_loan_contract :
      Drawn
      → LoanContractInput
      → List (List OracleAnnouncement)
      → ℕ
      → Bytes
      → ℕ
      → Result Error (OfferedLoanContract × OfferLoanDlc)
  offer_loan_contract drawn input announcements refund_delay counter_party preimage = do
    u ← validate_loan_input input
    let keys_id = drawn.derive_signer_key_id true drawn.temporary_id
    signer ← out.derive_contract_signer keys_id
    party_params ← get_lender_party_params out signer
    let contract_input : ContractInput = record {
      offer_collateral = 0;
      accept_collateral = input.collateral;
      fee_rate = input.fee_rate;
      contract_infos = input.contract_infos;
    }
    let locktime = drawn.unix_time_now % 2 ^ 32
    offered ←
        new_offered_contract drawn.temporary_id contract_input announcements party_params []
          counter_party refund_delay locktime keys_id (out.serial_id 2)
    message ← offer_loan_dlc_of cu (loan_of input preimage offered)
    ok (loan_of input preimage offered, message)

  unfoldable pub try_from_offer_dlc : OfferDlc → Bytes → Bytes → Result Error OfferedContract
  try_from_offer_dlc offer_dlc counter_party keys_id = do
    contract_info ← get_contract_info_and_announcements cu offer_dlc.contract_info
    (inputs, input_amount) ← get_tx_input_infos out offer_dlc.funding_inputs
    ok (record {
      id = offer_dlc.temporary_contract_id;
      is_offer_party = false;
      contract_info = contract_info;
      counter_party = counter_party;
      offer_params = record {
        fund_pubkey = offer_dlc.funding_pubkey;
        change_script_pubkey = offer_dlc.change_spk;
        change_serial_id = offer_dlc.change_serial_id;
        payout_script_pubkey = offer_dlc.payout_spk;
        payout_serial_id = offer_dlc.payout_serial_id;
        inputs = inputs;
        input_amount = input_amount;
        collateral = offer_dlc.offer_collateral;
      };
      total_collateral = get_total_collateral offer_dlc.contract_info;
      funding_inputs = offer_dlc.funding_inputs;
      fund_output_serial_id = offer_dlc.fund_output_serial_id;
      fee_rate_per_vb = offer_dlc.fee_rate_per_vb;
      cet_locktime = offer_dlc.cet_locktime;
      refund_locktime = offer_dlc.refund_locktime;
      keys_id = keys_id;
    })

  unfoldable pub try_from_offer_loan_dlc :
      OfferLoanDlc → Bytes → Bytes → Result Error OfferedLoanContract
  try_from_offer_loan_dlc m counter_party keys_id = do
    offered ← try_from_offer_dlc m.offer_dlc counter_party keys_id
    ok (record {
      offered_contract = offered;
      collateral_ratio = m.collateral_ratio;
      liquidation_ratio = m.liquidation_ratio;
      interest_rate = m.interest_rate;
      duration = m.duration;
      lender_hash = m.lender_hash;
    })
