-- ===== src/Manager/Tests/Runs.antt =====
-- The results on the manager at one loan.
use p2p_btc_lending.Prelude.{
  ltb, ◌==◌, ◌≡◌, ◌≢◌, ◌↔◌, ◌⊎◌, refl, true, ◌&&◌, [], ◌∷◌, some, ok, err, if◌then◌else◌, bytes_eq,
}
use p2p_btc_lending.Dlc.Types.{Transaction}
use p2p_btc_lending.Dlc.Loan.{to_be_bytes}
use p2p_btc_lending.Dlc.Tests.{bitcoin_test, funding}
use p2p_btc_lending.Dlc.Funding.{get_fund_output_index, get_fund_output_at}
use p2p_btc_lending.Dlc.Util.{find_output, get_output_for_script_pubkey}
use p2p_btc_lending.Contract.Types.{secp_error, Contract, confirmed}
use p2p_btc_lending.Contract.Ids.{
  xor_bytes, compute_id, contract_id_of, get_contract_id, get_id, get_counter_party_id,
}
use p2p_btc_lending.Storage.{Store, get_contract, update_contract, drop_temporary}
use p2p_btc_lending.Storage.Prefix.{serialize_contract, deserialize_contract, deserialize_as}
use p2p_btc_lending.Storage.Tests.{sled_test}
use p2p_btc_lending.Manager.World.{◌>>=◌}
use p2p_btc_lending.Manager.Lookup.{
  is_involved, get_contract_in_state, as_offered_loan, get_contract_in_state_iff,
}
use p2p_btc_lending.Manager.Closing.{
  pre_closed_by, closed_by, close_contract, check_signed_contract, check_refund,
}
use p2p_btc_lending.Manager.Closing.Outcomes.{
  close_contract_lem, get_contract-check_signed_contract,
}
use p2p_btc_lending.Manager.Loans.{
  sign_witness, verified_accept, accept_fail_on_error, on_offer_loan_message,
  on_accept_loan_message,
}
use p2p_btc_lending.Manager.Loans.Offering.{
  Taken, on_offer_loan_message-ok, on_offer_loan_message-refused,
}
use p2p_btc_lending.Manager.Loans.Accepting.{Accepted, on_accept_loan_message-ok}
use p2p_btc_lending.Manager.Closing.Refund.{Early, Refunds, check_refund-Refunds}
use p2p_btc_lending.Manager.Loans.Spending.{Untouched, Spent, on_accept_loan_message_spends}
use p2p_btc_lending.Manager.Checks.{check_escrow}
use p2p_btc_lending.Manager.Checks.Escrow.{Checked, check_escrow_confirms}
use p2p_btc_lending.Manager.Moves.{Moves}
use p2p_btc_lending.Manager.Tests.{
  loan_test, signed_test, offer_msg, accept_msg, answer_test, codecs_loan, manager_test,
  manager_strict, store_empty, store_loan, world_of,
}

get_contract_in_state_iff_example :
    (get_contract_in_state manager_test as_offered_loan store_loan (5 ∷ 6 ∷ []) (some (4 ∷ []))
      ≡ ok loan_test)
    ↔ ((c : Contract) × (get_contract sled_test codecs_loan store_loan (5 ∷ 6 ∷ []) ≡ ok (some c))
        × (is_involved (some (4 ∷ [])) c ≡ true)
        × (as_offered_loan c ≡ some loan_test))
get_contract_in_state_iff_example =
    get_contract_in_state_iff manager_test as_offered_loan store_loan (5 ∷ 6 ∷ []) (some (4 ∷ []))
      loan_test

close_contract_lem_example :
    let w = world_of manager_test store_empty in
    close_contract manager_test signed_test funding [] w ≡ (
      if ltb 7 6
      then (
        record w { sent = if 7 == 0 then funding ∷ [] else [] },
        ok (pre_closed_by manager_test signed_test (some []) funding),
      )
      else (w, (closed_by manager_test signed_test (some []) funding w).1))
close_contract_lem_example =
    close_contract_lem manager_test (world_of manager_test store_empty) signed_test funding [] 7
      refl refl

id_signed : get_id bitcoin_test (confirmed signed_test) ≡ ok (2 ∷ 1 ∷ [])
unfolding get_id get_contract_id contract_id_of compute_id xor_bytes get_fund_output_index
    get_fund_output_at get_output_for_script_pubkey find_output bytes_eq
id_signed = refl

get_contract-check_signed_contract_example :
    get_contract sled_test codecs_loan
      (check_signed_contract manager_test signed_test (world_of manager_test store_loan)).0.store
      (2 ∷ 1 ∷ [])
    ≡ (if true && bytes_eq (2 ∷ 1 ∷ []) (2 ∷ 1 ∷ [])
        then ok (some (confirmed signed_test))
        else get_contract sled_test codecs_loan store_loan (2 ∷ 1 ∷ []))
get_contract-check_signed_contract_example =
    get_contract-check_signed_contract manager_test (world_of manager_test store_loan) signed_test 7
      (2 ∷ 1 ∷ []) (2 ∷ 1 ∷ []) refl id_signed refl

check_refund-Refunds_example :
    let w = world_of manager_test store_loan in
    (((check_refund manager_test signed_test w).0.store ≡ store_loan)
      ⊎ Refunds manager_test signed_test w (check_refund manager_test signed_test w).0)
    × ((check_refund manager_test signed_test w).1 ≡ ok tt
        → Early manager_test signed_test w (check_refund manager_test signed_test w).0
          ⊎ Refunds manager_test signed_test w (check_refund manager_test signed_test w).0)
check_refund-Refunds_example =
    check_refund-Refunds manager_test signed_test (world_of manager_test store_loan)

offer_taken :
    (on_offer_loan_message manager_test offer_msg (4 ∷ []) (world_of manager_test store_empty)).1
    ≡ ok tt
unfolding on_offer_loan_message ◌>>=◌ get_contract
offer_taken = refl

on_offer_loan_message-ok_example :
    Taken manager_test
      (world_of manager_test store_empty)
      offer_msg
      (4 ∷ [])
      (on_offer_loan_message manager_test offer_msg (4 ∷ []) (world_of manager_test store_empty)).0
on_offer_loan_message-ok_example =
    on_offer_loan_message-ok manager_test (world_of manager_test store_empty) offer_msg (4 ∷ [])
      (λ c e. cc e) offer_taken

offer_refused :
    (on_offer_loan_message manager_test offer_msg (4 ∷ []) (world_of manager_test store_loan)).1
    ≢ ok tt
unfolding on_offer_loan_message ◌>>=◌ get_contract deserialize_contract deserialize_as bytes_eq
offer_refused h = cc h

on_offer_loan_message-refused_example :
    (on_offer_loan_message manager_test offer_msg (4 ∷ []) (world_of manager_test store_loan)).0
    ≡ world_of manager_test store_loan
on_offer_loan_message-refused_example =
    on_offer_loan_message-refused manager_test (world_of manager_test store_loan) offer_msg (4 ∷ [])
      offer_refused

accept_taken :
    (on_accept_loan_message manager_test accept_msg (4 ∷ []) (world_of manager_test store_loan)).1
    ≡ ok answer_test
unfolding on_accept_loan_message ◌>>=◌ get_contract_in_state get_contract deserialize_contract
    deserialize_as bytes_eq is_involved get_counter_party_id sign_witness verified_accept
    update_contract get_id get_contract_id contract_id_of compute_id xor_bytes get_fund_output_index
    get_fund_output_at get_output_for_script_pubkey find_output drop_temporary to_be_bytes
accept_taken = refl

on_accept_loan_message-ok_example :
    Accepted manager_test accept_msg
      (4 ∷ [])
      (world_of manager_test store_loan)
      (on_accept_loan_message manager_test accept_msg (4 ∷ []) (world_of manager_test store_loan)).0
      answer_test
on_accept_loan_message-ok_example =
    on_accept_loan_message-ok manager_test (world_of manager_test store_loan) accept_msg (4 ∷ [])
      answer_test accept_taken

abbrev sent_test : Transaction
sent_test = record funding {
  input =
      record {
        previous_output = record { txid = 7 ∷ 7 ∷ []; vout = 0 };
        script_sig = [];
        sequence = 4294967295;
        witness = (44 ∷ []) ∷ to_be_bytes 16 77 ∷ (9 ∷ []) ∷ [];
      }
      ∷ [];
}

abbrev store_failed : Store sled_test
store_failed = record store_loan { contract_tree = (5 ∷ 6 ∷ [], 9 ∷ []) ∷ store_loan.contract_tree }

-- The transaction has been sent, although the contract is refused.
refused_run :
    on_accept_loan_message manager_strict accept_msg (4 ∷ []) (world_of manager_strict store_loan)
    ≡ (
      record (world_of manager_strict store_loan) { store = store_failed; sent = sent_test ∷ [] },
      err secp_error,
    )
unfolding on_accept_loan_message ◌>>=◌ get_contract_in_state get_contract deserialize_contract
    deserialize_as bytes_eq is_involved get_counter_party_id sign_witness verified_accept
    accept_fail_on_error update_contract get_id drop_temporary to_be_bytes serialize_contract
refused_run = refl

on_accept_loan_message_spends_example :
    Untouched manager_strict
      (world_of manager_strict store_loan)
      (on_accept_loan_message manager_strict accept_msg
        (4 ∷ [])
        (world_of manager_strict store_loan)).0
    ⊎ Spent manager_strict accept_msg
        (4 ∷ [])
        (world_of manager_strict store_loan)
        (on_accept_loan_message manager_strict accept_msg
          (4 ∷ [])
          (world_of manager_strict store_loan)).0
on_accept_loan_message_spends_example =
    on_accept_loan_message_spends manager_strict (world_of manager_strict store_loan) accept_msg
      (4 ∷ [])

check_escrow_confirms_example :
    Checked manager_test loan_test
      (world_of manager_test store_loan)
      (check_escrow manager_test loan_test (world_of manager_test store_loan)).0
check_escrow_confirms_example =
    check_escrow_confirms manager_test loan_test (world_of manager_test store_loan)
