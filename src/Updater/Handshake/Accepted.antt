-- ===== src/Updater/Handshake/Accepted.antt =====
-- The runs of the borrower's acceptance of a loan.
use p2p_btc_lending.Prelude.{
  ℕ, ◌≡◌, refl, ap, sym, ◌∙◌, List, none, ok, map_err-eq-ok, >>=-eq-ok, ok-inj, at_index,
}
use p2p_btc_lending.Dlc.Types.{Bytes, TxOut, Transaction, PartyParams, DlcTransactions, Payout}
use p2p_btc_lending.Dlc.Funding.{get_fund_output}
use p2p_btc_lending.Dlc.Loan.{create_loan_expiration_dlc_transactions}
use p2p_btc_lending.Dlc.Script.{make_loan_escrow_after_codesep_script}
use p2p_btc_lending.Messages.{FundingInput, AcceptLoanDlc}
use p2p_btc_lending.Contract.Types.{
  Error, dlc_error, ContractInfo, OfferedLoanContract, AcceptedLoanContract,
}
use p2p_btc_lending.Contract.Info.{get_payouts, of_dlc}
use p2p_btc_lending.Updater.{Outside, get_party_params}
use p2p_btc_lending.Updater.Accept.{Signatures, make_signatures}
use p2p_btc_lending.Updater.AcceptLoan.{
  sign_collateral, accept_loan_contract, accept_loan_contract_internal,
  get_accept_loan_contract_msg,
}

-- A run of the borrower's acceptance that returned.
pub record Acceptance (out : Outside) (loan : OfferedLoanContract)
    (escrow_txid hash preimage : Bytes) (c : AcceptedLoanContract) (msg : AcceptLoanDlc)
    : Type 0 where
  pub signer : Bytes
  pub params : PartyParams
  pub inputs : List FundingInput
  pub first : ContractInfo
  pub payouts : List Payout
  pub txs : DlcTransactions
  pub fund_output : TxOut
  pub s : Signatures
  pub refund : Bytes
  pub collateral : Transaction × Bytes × ℕ
  pub spends : sign_collateral out loan signer escrow_txid hash preimage ≡ ok collateral
  pub own :
      get_party_params out loan.offered_contract.total_collateral
        loan.offered_contract.fee_rate_per_vb signer
      ≡ ok (params, inputs)
  pub has_first : at_index {E = Error} loan.offered_contract.contract_info 0 ≡ ok first
  pub paid :
      get_payouts out.bitcoin out.secp out.numericals first loan.offered_contract.total_collateral
      ≡ ok payouts
  pub built :
      create_loan_expiration_dlc_transactions out.bitcoin loan.offered_contract.offer_params params
        payouts loan.offered_contract.refund_locktime loan.offered_contract.cet_locktime
        collateral.0 collateral.1
      ≡ ok txs
  pub funded : get_fund_output out.bitcoin txs ≡ ok fund_output
  pub made :
      make_signatures out loan.offered_contract params signer fund_output.value
        txs.funding_script_pubkey txs
      ≡ ok (s, refund)
  pub accepted_is : c ≡ record {
    offered_loan_contract = loan;
    accept_params = params;
    funding_inputs = inputs;
    adaptor_infos = s.adaptor_infos;
    adaptor_signatures = none;
    accept_refund_signature = refund;
    dlc_transactions = record txs { cets = s.cets };
    escrow_txid = escrow_txid;
    borrower_hash = hash;
    signed_escrow_spend_tx = collateral.0;
  }
  pub message_is :
      msg
      ≡ get_accept_loan_contract_msg c s.adaptor_sigs collateral.2
          (make_loan_escrow_after_codesep_script out.bitcoin
            loan.offered_contract.offer_params.fund_pubkey hash)
          collateral.1

pub accept_loan_contract-Acceptance :
    (out : Outside) (loan : OfferedLoanContract) (escrow_txid hash preimage : Bytes)
    (c : AcceptedLoanContract) (msg : AcceptLoanDlc)
    → accept_loan_contract out loan escrow_txid hash preimage ≡ ok (c, msg)
    → Acceptance out loan escrow_txid hash preimage c msg
unfolding accept_loan_contract accept_loan_contract_internal
accept_loan_contract-Acceptance out loan escrow_txid hash preimage c msg e =
    let o = loan.offered_contract in
    let (signer, _, e1) = >>=-eq-ok (out.derive_contract_signer o.keys_id) _ e in
    let (collateral, spends, e2) =
      >>=-eq-ok (sign_collateral out loan signer escrow_txid hash preimage) _ e1 in
    let (own, is_own, e3) =
      >>=-eq-ok (get_party_params out o.total_collateral o.fee_rate_per_vb signer) _ e2 in
    let (first, has_first, e4) = >>=-eq-ok (at_index o.contract_info 0) _ e3 in
    let (payouts, paid, e5) =
      >>=-eq-ok (get_payouts out.bitcoin out.secp out.numericals first o.total_collateral) _ e4 in
    let (txs, built, e6) =
      >>=-eq-ok
        (of_dlc (
          create_loan_expiration_dlc_transactions out.bitcoin o.offer_params own.0 payouts
            o.refund_locktime o.cet_locktime collateral.0 collateral.1))
        _ e5 in
    let (fund_output, funded, e7) = >>=-eq-ok (of_dlc (get_fund_output out.bitcoin txs)) _ e6 in
    let (made, is_made, e8) =
      >>=-eq-ok
        (accept_loan_contract_internal out loan own.0 own.1 signer fund_output.value none txs
          escrow_txid hash collateral.0)
        _ e7 in
    let (found, is_found, e9) =
      >>=-eq-ok (make_signatures out o own.0 signer fund_output.value txs.funding_script_pubkey txs)
        _ is_made in
    let result = ok-inj _ refl e8 in
    let inner = ok-inj _ refl e9 in
    let answer : AcceptedLoanContract → List Bytes → AcceptLoanDlc = λ a x.
      get_accept_loan_contract_msg a x collateral.2
        (make_loan_escrow_after_codesep_script out.bitcoin o.offer_params.fund_pubkey hash)
        collateral.1 in
    record {
      signer = signer;
      params = own.0;
      inputs = own.1;
      first = first;
      payouts = payouts;
      txs = txs;
      fund_output = fund_output;
      s = found.0;
      refund = found.1;
      collateral = collateral;
      spends = spends;
      own = is_own;
      has_first = has_first;
      paid = paid;
      built = map_err-eq-ok dlc_error _ built;
      funded = map_err-eq-ok dlc_error _ funded;
      made = is_found;
      accepted_is =
          sym (ap (λ (p : AcceptedLoanContract × AcceptLoanDlc). p.0) result)
          ∙ sym (ap (λ (p : AcceptedLoanContract × List Bytes). p.0) inner);
      message_is =
          sym (ap (λ (p : AcceptedLoanContract × AcceptLoanDlc). p.1) result)
          ∙ ap (λ (a : AcceptedLoanContract). answer a made.1)
              (ap (λ (p : AcceptedLoanContract × AcceptLoanDlc). p.0) result)
          ∙ ap (λ (x : List Bytes). answer c x)
              (sym (ap (λ (p : AcceptedLoanContract × List Bytes). p.1) inner));
    }
