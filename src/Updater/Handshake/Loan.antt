-- ===== src/Updater/Handshake/Loan.antt =====
-- The exchange of a loan's accept and sign messages, from end to end.
use p2p_btc_lending.Prelude.{
  ◌≡◌, refl, ap, sym, subst, ◌∙◌, List, [], All, some, none, ok, >>=-eq-ok, >>=-ok, for_each,
}
use p2p_btc_lending.Dlc.Types.{Bytes, TxOut, Transaction, DlcTransactions, Bitcoin}
use p2p_btc_lending.Dlc.Funding.{get_fund_output, get_fund_output_at, get_fund_output_index}
use p2p_btc_lending.Dlc.Script.{make_loan_escrow_after_codesep_script}
use p2p_btc_lending.Dlc.Signing.{get_raw_sig_for_tx_input, verify_tx_input_sig, zip}
use p2p_btc_lending.Dlc.Signing.Schemes.{IsSound, IsHashing, verify_tx_input_sig-get_raw_sig}
use p2p_btc_lending.Messages.{AcceptLoanDlc, SignDlc, to_accept_dlc}
use p2p_btc_lending.Contract.Types.{
  OfferedLoanContract, AcceptedContract, AcceptedLoanContract, SignedContract, enum,
}
use p2p_btc_lending.Contract.Ids.{get_contract_id, contract_id_of, compute_id, as_u16}
use p2p_btc_lending.Contract.Info.{of_dlc}
use p2p_btc_lending.Contract.Info.Agreement.{IsEnum}
use p2p_btc_lending.Updater.{Outside}
use p2p_btc_lending.Updater.Accept.{protocol_version, to_accepted_contract}
use p2p_btc_lending.Updater.AcceptLoan.{accept_loan_contract, get_accept_loan_contract_msg}
use p2p_btc_lending.Updater.Sign.{
  params_of_accept, add_own_signatures, get_sign_dlc, verify_accepted_and_sign_loan_contract,
  dummy_funding_signatures,
}
use p2p_btc_lending.Updater.Answer.{
  verify_signed_contract, verify_signed_contract_internal, check_answer,
}
use p2p_btc_lending.Updater.Handshake.Params.{IsEncoding, get_tx_input_infos-get_party_params}
use p2p_btc_lending.Updater.Handshake.Signatures.{make_signatures-Made}
use p2p_btc_lending.Updater.Handshake.Answers.{check_answer-own_signatures}
use p2p_btc_lending.Updater.Handshake.Transactions.{
  IsSegwit, create_loan_expiration-with_witness, create_loan_expiration-HasInput,
}
use p2p_btc_lending.Updater.Handshake.Accepted.{Acceptance, accept_loan_contract-Acceptance}
use p2p_btc_lending.Updater.Handshake.Lender.{
  Lender, offer_of, answers, signed_of, internal-Made, params_of_accept-same,
}

-- A set of transactions that has its fund output has an id.
contract_id_of-ok :
    (b : Bitcoin) (txs : DlcTransactions) (id : Bytes) (o : TxOut)
    → get_fund_output b txs ≡ ok o
    → (i : Bytes) × (contract_id_of b txs id ≡ ok i)
unfolding get_fund_output get_fund_output_index contract_id_of
contract_id_of-ok b txs id o e =
    let (found, at_found, _) = >>=-eq-ok (get_fund_output_at b txs) _ e in
    (
      compute_id (b.compute_txid txs.fund) (as_u16 found.0) id,
      >>=-ok _ (ap of_dlc (>>=-ok _ at_found refl)) refl,
    )

get_fund_output-cets :
    (b : Bitcoin) (txs : DlcTransactions) (cets : List Transaction)
    → get_fund_output b (record txs { cets = cets }) ≡ get_fund_output b txs
unfolding get_fund_output get_fund_output_at
get_fund_output-cets b txs cets = refl

-- What the borrower keeps when it has checked the answer.
abbrev pub checked_of : AcceptedContract → SignDlc → SignedContract
checked_of c answer = record {
  accepted_contract = c;
  adaptor_signatures = some answer.cet_adaptor_signatures;
  offer_refund_signature = answer.refund_signature;
  funding_signatures = answer.funding_signatures;
  channel_id = none;
}

module _ (out : Outside) (sound : IsSound out.secp) (l : Lender) where
  -- The borrower accepts an answer that was signed for its transactions.
  verify_signed_contract-signed :
      (c : AcceptedContract) (answer : SignDlc) (fund_output : TxOut)
      → c.offered_contract.offer_params.fund_pubkey ≡ out.secp.public_key l.own
      → All IsEnum c.offered_contract.contract_info
      → All (λ i. i ≡ enum) c.adaptor_infos
      → get_fund_output out.bitcoin c.dlc_transactions ≡ ok fund_output
      → get_raw_sig_for_tx_input out.secp c.dlc_transactions.refund 0
          c.dlc_transactions.funding_script_pubkey fund_output.value l.own
        ≡ ok answer.refund_signature
      → for_each
          (add_own_signatures out l.own c.dlc_transactions.funding_script_pubkey fund_output.value
            c.dlc_transactions.cets)
          (zip c.offered_contract.contract_info c.adaptor_infos)
          []
        ≡ ok answer.cet_adaptor_signatures
      → verify_signed_contract out c answer ≡ ok (checked_of c answer, c.dlc_transactions.fund)
  unfolding verify_signed_contract verify_signed_contract_internal
  verify_signed_contract-signed c answer fund_output key enums all_enum funded refunded signed =
      let txs = c.dlc_transactions in
      let script = txs.funding_script_pubkey in
      let refund_checked =
        ap
          (λ pk. of_dlc (
            verify_tx_input_sig out.secp answer.refund_signature txs.refund 0 script
              fund_output.value pk))
          key
        ∙ ap of_dlc (
            verify_tx_input_sig-get_raw_sig out.secp sound txs.refund 0 script fund_output.value
              l.own answer.refund_signature refunded) in
      let all_checked =
        ap
          (λ pk.
            for_each
              (check_answer out pk script fund_output.value txs.cets answer.cet_adaptor_signatures)
              (zip c.adaptor_infos c.offered_contract.contract_info) 0)
          key
        ∙ check_answer-own_signatures out sound l.own script fund_output.value txs.cets
            c.offered_contract.contract_info c.adaptor_infos answer.cet_adaptor_signatures enums
            all_enum signed in
      >>=-ok _ (ap of_dlc funded) (>>=-ok _ refund_checked (>>=-ok _ all_checked refl))

-- The lender answers, on the transactions of the borrower, and the borrower accepts the answer.
abbrev pub Agreed : Outside → Lender → AcceptedLoanContract → AcceptLoanDlc → Type 0
Agreed out l c msg =
    (s : SignedContract) × ((answer : SignDlc) × (answers out l
          c.offered_loan_contract.offered_contract msg
        ≡ ok (s, answer))
      × (s.accepted_contract ≡ record (to_accepted_contract c) {
        offered_contract = offer_of c.offered_loan_contract.offered_contract l;
        adaptor_signatures = some msg.cet_adaptor_signatures;
      })
      × (verify_signed_contract out (to_accepted_contract c) answer
          ≡ ok (checked_of (to_accepted_contract c) answer, c.dlc_transactions.fund)))

module _ (out : Outside) (sound : IsSound out.secp) (hashing : IsHashing out.secp)
    (encoding : IsEncoding out) (segwit : IsSegwit out.bitcoin) (l : Lender)
    (loan : OfferedLoanContract) (enums : All IsEnum loan.offered_contract.contract_info)
    (derived : l.derive_contract_signer l.keys_id ≡ ok l.own)
    (key : loan.offered_contract.offer_params.fund_pubkey ≡ out.secp.public_key l.own) where
  Acceptance-Agreed :
      (escrow_txid hash preimage : Bytes) (c : AcceptedLoanContract) (msg : AcceptLoanDlc)
      → Acceptance out loan escrow_txid hash preimage c msg
      → Agreed out l c msg
  unfolding verify_accepted_and_sign_loan_contract to_accept_dlc get_accept_loan_contract_msg
      to_accepted_contract params_of_accept get_sign_dlc get_contract_id
  Acceptance-Agreed escrow_txid hash preimage c msg a =
      let o = loan.offered_contract in
      let (read, fund_key, _) =
        get_tx_input_infos-get_party_params out encoding o.total_collateral o.fee_rate_per_vb
          a.signer a.params a.inputs a.own in
      let (have, (total, added)) =
        create_loan_expiration-HasInput out.bitcoin o.offer_params a.params a.payouts
          o.refund_locktime o.cet_locktime a.collateral.0 a.collateral.1 a.txs a.built in
      let m =
        make_signatures-Made out o a.params a.signer a.fund_output.value a.txs.funding_script_pubkey
          a.txs a.s a.refund a.made in
      let (own_refund, (sigs, refunded, all_enum, own_signed, internal)) =
        internal-Made out sound hashing l o enums a.params a.inputs a.signer a.fund_output.value
          total a.txs a.s a.refund fund_key (ap of_dlc added) have m in
      let txs : DlcTransactions = record a.txs { cets = a.s.cets } in
      let funded = get_fund_output-cets out.bitcoin a.txs a.s.cets ∙ a.funded in
      let (id, has_id) = contract_id_of-ok out.bitcoin txs o.id a.fund_output funded in
      let answer : SignDlc = record {
        protocol_version = protocol_version;
        contract_id = id;
        cet_adaptor_signatures = sigs;
        refund_signature = own_refund;
        funding_signatures = dummy_funding_signatures;
      } in
      let accepted_loan : AcceptedLoanContract = record {
        offered_loan_contract = loan;
        accept_params = a.params;
        funding_inputs = a.inputs;
        adaptor_infos = a.s.adaptor_infos;
        adaptor_signatures = none;
        accept_refund_signature = a.refund;
        dlc_transactions = txs;
        escrow_txid = escrow_txid;
        borrower_hash = hash;
        signed_escrow_spend_tx = a.collateral.0;
      } in
      let message : AcceptedLoanContract → AcceptLoanDlc = λ c.
        get_accept_loan_contract_msg c a.s.adaptor_sigs a.collateral.2
          (make_loan_escrow_after_codesep_script out.bitcoin o.offer_params.fund_pubkey hash)
          a.collateral.1 in
      let params_read =
        params_of_accept-same out l (to_accept_dlc (message accepted_loan)) ∙ >>=-ok _ read refl in
      let rebuilt = ap of_dlc (
        create_loan_expiration-with_witness out.bitcoin o.offer_params a.params a.payouts
          o.refund_locktime o.cet_locktime segwit a.collateral.0 l.witness a.collateral.1
        ∙ a.built) in
      let answered = >>=-ok _ params_read (
        >>=-ok _ a.has_first (
          >>=-ok _ a.paid (
            >>=-ok _ rebuilt (
              >>=-ok _ (ap of_dlc a.funded)
                (>>=-ok _ derived (>>=-ok _ internal (>>=-ok _ (>>=-ok _ has_id refl) refl))))))) in
      let checked =
        verify_signed_contract-signed out sound l (to_accepted_contract accepted_loan) answer
          a.fund_output key enums all_enum funded refunded own_signed in
      subst (Agreed out l c) (sym a.message_is) (
        subst (λ c. Agreed out l c (message c)) (sym a.accepted_is)
          (
            signed_of out sound hashing l o enums a.params a.inputs a.txs a.s a.refund own_refund,
            (answer, answered, refl, checked),
          ))

  -- Where the conditions of a loan are enumerations and the offer names the key that the lender
  -- derives, every acceptance that the borrower's code returns is answered by the lender's code,
  -- whatever witness the lender gives the collateral transaction; the lender's contract has the
  -- borrower's transactions, parameters and signatures, and the borrower's code accepts the answer.
  -- The signature schemes are taken to be sound and to hash every input that exists, an id of a
  -- transaction not to depend on witnesses, and a known transaction to be decoded as it was encoded.
  pub accept_loan_contract-Agreed :
      (escrow_txid hash preimage : Bytes) (c : AcceptedLoanContract) (msg : AcceptLoanDlc)
      → accept_loan_contract out loan escrow_txid hash preimage ≡ ok (c, msg)
      → Agreed out l c msg
  accept_loan_contract-Agreed escrow_txid hash preimage c msg e =
      Acceptance-Agreed escrow_txid hash preimage c msg
        (accept_loan_contract-Acceptance out loan escrow_txid hash preimage c msg e)
