-- ===== src/Updater/Offer/Readable.antt =====
-- What the peer reads in the message of an offer.
use p2p_btc_lending.Prelude.{
  ℕ, ◌+◌, ◌≡◌, refl, ap, sym, ◌∙◌, List, [], All, true, false, ok, >>=-eq-ok, >>=-ok, ok-inj,
  assert, unwrap, length, ◌==◌, ◌%◌, ◌^◌, for_each, subst,
}
use p2p_btc_lending.Dlc.Types.{Bytes, PartyParams}
use p2p_btc_lending.Dlc.Checked.{amount_add}
use p2p_btc_lending.Messages.{OracleAnnouncement, FundingInput, OfferDlc, OfferLoanDlc}
use p2p_btc_lending.Contract.Types.{
  ContractInput, LoanContractInput, OfferedContract, OfferedLoanContract,
}
use p2p_btc_lending.Contract.Info.{of_dlc}
use p2p_btc_lending.Updater.{Outside, get_party_params, get_lender_party_params, get_tx_input_infos}
use p2p_btc_lending.Updater.Conversion.{Curves, ser_contract_info}
use p2p_btc_lending.Updater.Conversion.Readable.{
  IsReadable, collect-ser_info, read-ser_of, total-ser_of,
}
use p2p_btc_lending.Updater.Inputs.{validate_input, validate_loan_input}
use p2p_btc_lending.Updater.Offer.{
  Drawn, new_offered_contract, offer_dlc_of, offer_loan_dlc_of, offer_contract, loan_of,
  offer_loan_contract, try_from_offer_dlc, try_from_offer_loan_dlc, validate_input,
  get_latest_maturity_date,
}
use p2p_btc_lending.Updater.Handshake.Params.{IsEncoding, get_tx_input_infos-get_party_params}

-- What the peer has of an offer.
abbrev pub seen_by : Bytes → Bytes → OfferedContract → OfferedContract
seen_by peer keys_id o = record o {
  is_offer_party = false;
  counter_party = peer;
  keys_id = keys_id;
}

module _ (out : Outside) (cu : Curves) (peer keys_id : Bytes) where
  -- An offer whose inputs are read is sent and read.
  try_from_offer_dlc-offer_dlc_of :
      (o : OfferedContract)
      → All (IsReadable o.total_collateral) o.contract_info
      → get_tx_input_infos out o.funding_inputs
        ≡ ok (o.offer_params.inputs, o.offer_params.input_amount)
      → (m : OfferDlc) × (offer_dlc_of cu o ≡ ok m)
        × (try_from_offer_dlc out cu m peer keys_id ≡ ok (seen_by peer keys_id o))
  unfolding offer_dlc_of ser_contract_info try_from_offer_dlc
  try_from_offer_dlc-offer_dlc_of o h inputs =
      let total = o.total_collateral in
      let (is, sent, read) = collect-ser_info cu total o.contract_info h in
      let all_read = read-ser_of cu total is ∙ read in
      (
        _,
        >>=-ok _ (>>=-ok _ sent refl) refl,
        >>=-ok _ all_read (
            >>=-ok _ inputs (
              ap (λ t. ok (record (seen_by peer keys_id o) { total_collateral = t }))
                (total-ser_of cu total is))),
      )

  -- The contract of an offer has the given parameters and inputs.
  new_offered_contract-params :
      (id : Bytes) (input : ContractInput) (announcements : List (List OracleAnnouncement))
      (params : PartyParams) (inputs : List FundingInput) (other : Bytes) (delay locktime : ℕ)
      (own_keys : Bytes) (serial : ℕ) (o : OfferedContract)
      → new_offered_contract id input announcements params inputs other delay locktime own_keys
          serial
        ≡ ok o
      → (o.offer_params ≡ params) × (o.funding_inputs ≡ inputs)
  unfolding new_offered_contract
  new_offered_contract-params id input announcements params inputs other delay locktime own_keys
        serial o e =
      let (total, _, e1) =
        >>=-eq-ok (of_dlc (amount_add input.offer_collateral input.accept_collateral)) _ e in
      let (u, _, e2) =
        >>=-eq-ok (assert (length input.contract_infos == length announcements)) _ e1 in
      let (latest, _, e3) = >>=-eq-ok (unwrap (get_latest_maturity_date announcements)) _ e2 in
      let same = ok-inj _ refl e3 in
      (
        sym (ap (λ (o : OfferedContract). o.offer_params) same),
        sym (ap (λ (o : OfferedContract). o.funding_inputs) same),
      )

  get_lender_party_params-inputs :
      (signer : Bytes) (params : PartyParams)
      → get_lender_party_params out signer ≡ ok params
      → get_tx_input_infos out [] ≡ ok (params.inputs, params.input_amount)
  unfolding get_lender_party_params get_tx_input_infos for_each
  get_lender_party_params-inputs signer params e =
      let (payout, _, e1) = >>=-eq-ok out.get_new_address _ e in
      let (change, _, e2) = >>=-eq-ok out.get_new_change_address _ e1 in
      ap (λ (p : PartyParams). ok (p.inputs, p.input_amount)) (ok-inj _ refl e2)

  message-try_from_offer_dlc :
      (o : OfferedContract) (m : OfferDlc) (params : PartyParams) (inputs : List FundingInput)
      → All (IsReadable o.total_collateral) o.contract_info
      → (o.offer_params ≡ params) × (o.funding_inputs ≡ inputs)
      → get_tx_input_infos out inputs ≡ ok (params.inputs, params.input_amount)
      → offer_dlc_of cu o ≡ ok m
      → try_from_offer_dlc out cu m peer keys_id ≡ ok (seen_by peer keys_id o)
  message-try_from_offer_dlc o m params inputs h (is_params, is_inputs) read sent =
      let infos =
        ap (get_tx_input_infos out) is_inputs
        ∙ read
        ∙ ap (λ (p : PartyParams). ok (p.inputs, p.input_amount)) (sym is_params) in
      let (message, sent', read') = try_from_offer_dlc-offer_dlc_of o h infos in
      ap (λ m. try_from_offer_dlc out cu m peer keys_id) (ok-inj _ sent sent') ∙ read'

  abbrev Answered : OfferedContract × OfferDlc → Type 0
  Answered p =
      All (IsReadable p.0.total_collateral) p.0.contract_info
      → try_from_offer_dlc out cu p.1 peer keys_id ≡ ok (seen_by peer keys_id p.0)

  abbrev AnsweredLoan : OfferedLoanContract × OfferLoanDlc → Type 0
  AnsweredLoan p =
      All (IsReadable p.0.offered_contract.total_collateral) p.0.offered_contract.contract_info
      → try_from_offer_loan_dlc out cu p.1 peer keys_id
        ≡ ok (record p.0 { offered_contract = seen_by peer keys_id p.0.offered_contract })

  -- If the conditions of the offered contract are enumerations whose payouts add up to the
  -- collateral, with announcements of enumerated events, thresholds below 2^16, and a threshold of 1
  -- where there is one oracle, and if each known transaction is decoded as it was encoded, then the
  -- peer reads the message of an offer as the contract that the offering party has made, with the
  -- peer's own key id and counter party.
  pub try_from_offer_dlc-offer_contract :
      IsEncoding out
      → (drawn : Drawn) (input : ContractInput) (announcements : List (List OracleAnnouncement))
        (delay : ℕ) (other : Bytes) (o : OfferedContract) (m : OfferDlc)
      → All (IsReadable o.total_collateral) o.contract_info
      → offer_contract out cu drawn input announcements delay other ≡ ok (o, m)
      → try_from_offer_dlc out cu m peer keys_id ≡ ok (seen_by peer keys_id o)
  unfolding offer_contract
  try_from_offer_dlc-offer_contract encoding drawn input announcements delay other o m h e =
      let (u, _, e1) = >>=-eq-ok (validate_input input) _ e in
      let (signer, _, e2) = >>=-eq-ok (out.derive_contract_signer _) _ e1 in
      let (own, is_own, e3) =
        >>=-eq-ok (get_party_params out input.offer_collateral input.fee_rate signer) _ e2 in
      let (offered, made, e4) =
        >>=-eq-ok
          (new_offered_contract drawn.temporary_id input announcements own.0 own.1 other delay
            (drawn.unix_time_now % 2 ^ 32) (drawn.derive_signer_key_id true drawn.temporary_id)
            (out.serial_id (2 + length own.1)))
          _ e3 in
      let (message, sent, e5) = >>=-eq-ok (offer_dlc_of cu offered) _ e4 in
      let same : (offered, message) ≡ (o, m) = ok-inj _ refl e5 in
      let given =
        new_offered_contract-params drawn.temporary_id input announcements own.0 own.1 other delay
          (drawn.unix_time_now % 2 ^ 32) (drawn.derive_signer_key_id true drawn.temporary_id)
          (out.serial_id (2 + length own.1)) offered made in
      let (read, _, _) =
        get_tx_input_infos-get_party_params out encoding input.offer_collateral input.fee_rate
          signer own.0 own.1 is_own in
      subst Answered same
        (λ h. message-try_from_offer_dlc offered message own.0 own.1 h given read sent) h

  -- If the conditions of the loan's contract are enumerations whose payouts add up to the
  -- collateral, with announcements of enumerated events, thresholds below 2^16, and a threshold of 1
  -- where there is one oracle, then the borrower reads the message of a loan's offer as the loan that
  -- the lender has made, with the borrower's own key id and counter party.
  pub try_from_offer_loan_dlc-offer_loan_contract :
      (drawn : Drawn) (input : LoanContractInput) (announcements : List (List OracleAnnouncement))
      (delay : ℕ) (other : Bytes) (preimage : ℕ) (l : OfferedLoanContract) (m : OfferLoanDlc)
      → All (IsReadable l.offered_contract.total_collateral) l.offered_contract.contract_info
      → offer_loan_contract out cu drawn input announcements delay other preimage ≡ ok (l, m)
      → try_from_offer_loan_dlc out cu m peer keys_id
        ≡ ok (record l { offered_contract = seen_by peer keys_id l.offered_contract })
  unfolding offer_loan_contract offer_loan_dlc_of try_from_offer_loan_dlc
  try_from_offer_loan_dlc-offer_loan_contract drawn input announcements delay other preimage l m h
        e =
      let (u, _, e1) = >>=-eq-ok (validate_loan_input input) _ e in
      let (signer, _, e2) = >>=-eq-ok (out.derive_contract_signer _) _ e1 in
      let (params, is_own, e3) = >>=-eq-ok (get_lender_party_params out signer) _ e2 in
      let contract_input : ContractInput = record {
        offer_collateral = 0;
        accept_collateral = input.collateral;
        fee_rate = input.fee_rate;
        contract_infos = input.contract_infos;
      } in
      let (offered, made, e4) =
        >>=-eq-ok
          (new_offered_contract drawn.temporary_id contract_input announcements params [] other
            delay (drawn.unix_time_now % 2 ^ 32)
            (drawn.derive_signer_key_id true drawn.temporary_id) (out.serial_id 2))
          _ e3 in
      let loan = loan_of out cu input preimage offered in
      let (message, sent, e5) = >>=-eq-ok (offer_loan_dlc_of cu loan) _ e4 in
      let (offer_dlc, offer_sent, e6) = >>=-eq-ok (offer_dlc_of cu offered) _ sent in
      let same : (loan, message) ≡ (l, m) = ok-inj _ refl e5 in
      let given =
        new_offered_contract-params drawn.temporary_id contract_input announcements params [] other
          delay (drawn.unix_time_now % 2 ^ 32) (drawn.derive_signer_key_id true drawn.temporary_id)
          (out.serial_id 2) offered made in
      let read = get_lender_party_params-inputs signer params is_own in
      subst AnsweredLoan same
        (λ h.
          ap (λ m. try_from_offer_loan_dlc out cu m peer keys_id) (sym (ok-inj _ refl e6))
          ∙ >>=-ok _
              (message-try_from_offer_dlc offered offer_dlc params [] h given read offer_sent) refl)
        h
