-- ===== src/Storage/Tests/Updates.antt =====
-- The laws of the store at an accepted loan.
use p2p_btc_lending.Prelude.{
  All, ◌≡◌, refl, ap, true, [], ◌∷◌, some, none, ◌&&◌, arith, if◌then◌else◌, bytes_eq, ok,
}
use p2p_btc_lending.Dlc.Tests.{bitcoin_test, lender, borrower, funding, closing}
use p2p_btc_lending.Dlc.Funding.{get_fund_output_index, get_fund_output_at}
use p2p_btc_lending.Dlc.Util.{find_output, get_output_for_script_pubkey}
use p2p_btc_lending.Contract.Types.{OfferedContract, AcceptedContract, accepted}
use p2p_btc_lending.Contract.Ids.{
  xor_bytes, compute_id, contract_id_of, get_contract_id, get_id, get_temporary_id,
}
use p2p_btc_lending.Storage.Interface.{Codec, Codecs}
use p2p_btc_lending.Storage.Prefix.{serialize_contract}
use p2p_btc_lending.Storage.{
  Store, get_contract, update_contract, set_loan_preimage, get_loan_preimage, drop_temporary,
}
use p2p_btc_lending.Storage.{get_confirmed_contracts, values_with_prefix}
use p2p_btc_lending.Storage.Queries.{IsStored, get_confirmed_contracts-IsStored}
use p2p_btc_lending.Contract.Types.{SignedContract, confirmed}
use p2p_btc_lending.Storage.Laws.{get_contract-update_contract, get_loan_preimage-set_loan_preimage}
use p2p_btc_lending.Storage.Tests.{sled_test}

-- An encoding of one value.
abbrev pub only : {A : Type 0} → A → Codec A
only a = record {
  Fits = λ x. a ≡ x;
  serialize = λ x. [];
  deserialize = λ bs. some a;
  deserialize-serialize = λ x h. ap some h;
}

-- An encoding for which no value fits.
abbrev pub nothing : {A : Type 0} → Codec A
nothing = record {
  Fits = λ x. ⊥;
  serialize = λ x. [];
  deserialize = λ bs. none;
  deserialize-serialize = λ x h. absurd h;
}

abbrev pub offered_test : OfferedContract
offered_test = record {
  id = 5 ∷ 6 ∷ [];
  is_offer_party = true;
  contract_info = [];
  counter_party = 4 ∷ [];
  offer_params = lender;
  total_collateral = 500000;
  funding_inputs = [];
  fund_output_serial_id = 4;
  fee_rate_per_vb = 2;
  cet_locktime = 50;
  refund_locktime = 100;
  keys_id = 1 ∷ [];
}

abbrev pub accepted_test : AcceptedContract
accepted_test = record {
  offered_contract = offered_test;
  accept_params = borrower;
  funding_inputs = [];
  adaptor_infos = [];
  adaptor_signatures = none;
  accept_refund_signature = [];
  dlc_transactions = record {
    fund = funding;
    cets = closing.0;
    refund = closing.1;
    funding_script_pubkey = 3 ∷ [];
  };
}

abbrev codecs_test : Codecs
codecs_test = record {
  offered_codec = only offered_test;
  offered_loan_codec = nothing;
  accepted_codec = only accepted_test;
  signed_codec = nothing;
  failed_accept_codec = nothing;
  failed_sign_codec = nothing;
  pre_closed_codec = nothing;
  closed_codec = nothing;
}

abbrev before : Store sled_test
before = record {
  contract_tree = (5 ∷ 6 ∷ [], 1 ∷ []) ∷ [];
  preimage_tree = [];
  escrow_txid_tree = [];
}

abbrev after : Store sled_test
after = record {
  contract_tree = (2 ∷ 1 ∷ [], 4 ∷ []) ∷ [];
  preimage_tree = [];
  escrow_txid_tree = [];
}

id_accepted : get_id bitcoin_test (accepted accepted_test) ≡ ok (2 ∷ 1 ∷ [])
unfolding get_id get_contract_id contract_id_of compute_id xor_bytes get_fund_output_index
    get_fund_output_at get_output_for_script_pubkey find_output bytes_eq
id_accepted = refl

updated :
    update_contract sled_test codecs_test bitcoin_test before (accepted accepted_test) ≡ ok after
unfolding update_contract drop_temporary serialize_contract get_id get_contract_id contract_id_of
    compute_id xor_bytes get_fund_output_index get_fund_output_at get_output_for_script_pubkey
    find_output bytes_eq get_temporary_id
updated = refl

get_contract-update_contract_example : get_contract sled_test codecs_test after (2 ∷ 1 ∷ []) ≡ (
    if bytes_eq (2 ∷ 1 ∷ []) (2 ∷ 1 ∷ [])
    then ok (some (accepted accepted_test))
    else if true && bytes_eq (get_temporary_id (accepted accepted_test)) (2 ∷ 1 ∷ [])
    then ok none
    else get_contract sled_test codecs_test before (2 ∷ 1 ∷ []))
get_contract-update_contract_example =
    get_contract-update_contract sled_test codecs_test bitcoin_test before after
      (accepted accepted_test) (2 ∷ 1 ∷ []) (2 ∷ 1 ∷ []) refl id_accepted updated

get_loan_preimage-set_loan_preimage_example :
    get_loan_preimage sled_test (set_loan_preimage sled_test before (5 ∷ []) 77) (5 ∷ []) ≡ (
      if bytes_eq (5 ∷ []) (5 ∷ [])
      then ok (some 77)
      else get_loan_preimage sled_test before (5 ∷ []))
get_loan_preimage-set_loan_preimage_example =
    get_loan_preimage-set_loan_preimage sled_test before (5 ∷ []) (5 ∷ []) 77 (omega arith)

abbrev signed_only : SignedContract
signed_only = record {
  accepted_contract = accepted_test;
  adaptor_signatures = none;
  offer_refund_signature = [];
  funding_signatures = [];
  channel_id = none;
}

abbrev codecs_confirmed : Codecs
codecs_confirmed = record codecs_test { signed_codec = only signed_only }

abbrev confirmed_before : Store sled_test
confirmed_before = record {
  contract_tree = (2 ∷ 1 ∷ [], 6 ∷ []) ∷ (5 ∷ 6 ∷ [], 1 ∷ []) ∷ [];
  preimage_tree = [];
  escrow_txid_tree = [];
}

found_confirmed :
    get_confirmed_contracts sled_test codecs_confirmed confirmed_before ≡ ok (signed_only ∷ [])
unfolding get_confirmed_contracts values_with_prefix bytes_eq
found_confirmed = refl

get_confirmed_contracts-IsStored_example :
    All (λ c. IsStored sled_test codecs_confirmed confirmed_before (confirmed c)) (signed_only ∷ [])
get_confirmed_contracts-IsStored_example =
    get_confirmed_contracts-IsStored sled_test codecs_confirmed confirmed_before (signed_only ∷ [])
      found_confirmed
