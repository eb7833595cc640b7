-- ===== src/Updater/Sign.antt =====
-- The answer to an accepted contract: `verify_accepted_and_sign_contract`,
-- `verify_accepted_and_sign_loan_contract` and their internal function in stable-borrow-cli/crates/
-- dlc-manager/src/contract_updater.rs, and `get_sign_dlc` of src/contract/signed_contract.rs.
use p2p_btc_lending.Prelude.{
  ℕ, List, [], ◌∷◌, ◌++◌, Option, none, some, Result, ok, at_index, for_each, ◌>>=◌, ◌>>◌,
}
use p2p_btc_lending.Dlc.Types.{Bytes, TxIn, Transaction, PartyParams, DlcTransactions}
use p2p_btc_lending.Dlc.Checked.{amount_add}
use p2p_btc_lending.Dlc.Funding.{create_dlc_transactions, get_fund_output}
use p2p_btc_lending.Dlc.Loan.{create_loan_expiration_dlc_transactions}
use p2p_btc_lending.Dlc.Signing.{zip, verify_tx_input_sig, get_raw_sig_for_tx_input}
use p2p_btc_lending.Messages.{FundingInput, AcceptDlc, SignDlc}
use p2p_btc_lending.Contract.Types.{
  Error, ContractInfo, AdaptorInfo, OfferedContract, SignedContract,
}
use p2p_btc_lending.Contract.Ids.{get_contract_id}
use p2p_btc_lending.Contract.Info.{
  get_payouts, get_adaptor_signatures, verify_and_get_adaptor_info, of_dlc,
}
use p2p_btc_lending.Updater.{Outside, get_tx_input_infos}
use p2p_btc_lending.Updater.Accept.{protocol_version, option_or, rest_of, further_cets}

-- What the loop over the contract's conditions collects.
pub record Verified : Type 0 where
  pub cets : List Transaction
  pub adaptor_infos : List AdaptorInfo
  pub adaptor_index : ℕ

-- The funding signatures are a placeholder: one that has one empty element.
abbrev pub dummy_funding_signatures : List (List Bytes)
dummy_funding_signatures = ([] ∷ []) ∷ []

module _ (out : Outside) where
  -- The parameters of the other party, from its message.
  unfoldable pub params_of_accept : AcceptDlc → Result Error PartyParams
  params_of_accept msg = do
    infos ← get_tx_input_infos out msg.funding_inputs
    ok (record {
      fund_pubkey = msg.funding_pubkey;
      change_script_pubkey = msg.change_spk;
      change_serial_id = msg.change_serial_id;
      payout_script_pubkey = msg.payout_spk;
      payout_serial_id = msg.payout_serial_id;
      inputs = infos.0;
      input_amount = infos.1;
      collateral = msg.accept_collateral;
    })

  -- The body of the loop over the further conditions.
  unfoldable pub add_verified :
      OfferedContract
      → PartyParams
      → List Bytes
      → ℕ
      → Bytes
      → TxIn
      → ℕ
      → ContractInfo
      → Verified
      → Result Error Verified
  add_verified offered accept_params sigs value funding_script cet_input total_collateral
        contract_info v =
      do
        payouts ← get_payouts out.bitcoin out.secp out.numericals contract_info total_collateral
        let tmp_cets = further_cets offered accept_params cet_input payouts
        found ←
            verify_and_get_adaptor_info out.bitcoin out.secp out.numericals contract_info
              offered.total_collateral accept_params.fund_pubkey funding_script value tmp_cets sigs
              v.adaptor_index
        ok (record {
          cets = v.cets ++ tmp_cets;
          adaptor_infos = v.adaptor_infos ++ found.0 ∷ [];
          adaptor_index = found.1;
        })

  -- The check of the other party's signatures, up to the end of that loop.
  unfoldable pub verify_signatures :
      OfferedContract
      → PartyParams
      → Bytes
      → List Bytes
      → ℕ
      → Bytes
      → Bytes
      → DlcTransactions
      → Result Error Verified
  verify_signatures offered accept_params refund_signature sigs value script counter_adaptor_pk
        txs =
      do
        of_dlc (
            verify_tx_input_sig out.secp refund_signature txs.refund 0 script value
              counter_adaptor_pk)
        first_info ← at_index offered.contract_info 0
        first ←
            verify_and_get_adaptor_info out.bitcoin out.secp out.numericals first_info
              offered.total_collateral counter_adaptor_pk script value txs.cets sigs 0
        cet ← at_index txs.cets 0
        cet_input ← at_index cet.input 0
        total_collateral ←
            of_dlc (amount_add offered.offer_params.collateral accept_params.collateral)
        for_each
            (add_verified offered accept_params sigs value txs.funding_script_pubkey cet_input
              total_collateral)
            (rest_of offered.contract_info)
            (record { cets = txs.cets; adaptor_infos = first.0 ∷ []; adaptor_index = first.1 })

  -- The body of the loop that signs.
  unfoldable pub add_own_signatures :
      Bytes
      → Bytes
      → ℕ
      → List Transaction
      → ContractInfo × AdaptorInfo
      → List Bytes
      → Result Error (List Bytes)
  add_own_signatures signer script value cets c own_signatures = do
    sigs ←
        get_adaptor_signatures out.bitcoin out.secp out.numericals c.0 c.1 signer script value cets
    ok (own_signatures ++ sigs)

  unfoldable pub verify_accepted_and_sign_contract_internal :
      OfferedContract
      → PartyParams
      → List FundingInput
      → Bytes
      → List Bytes
      → ℕ
      → Bytes
      → Option Bytes
      → Option Bytes
      → DlcTransactions
      → Option Bytes
      → Result Error (SignedContract × List Bytes)
  verify_accepted_and_sign_contract_internal offered accept_params funding_inputs_info
        refund_signature cet_adaptor_signatures input_value signer input_script_pubkey
        counter_adaptor_pk txs channel_id =
      do
        let script = option_or input_script_pubkey txs.funding_script_pubkey
        v ←
            verify_signatures offered accept_params refund_signature cet_adaptor_signatures
              input_value script (option_or counter_adaptor_pk accept_params.fund_pubkey) txs
        own_signatures ←
            for_each (add_own_signatures signer script input_value v.cets)
              (zip offered.contract_info v.adaptor_infos) []
        offer_refund_signature ←
            of_dlc (get_raw_sig_for_tx_input out.secp txs.refund 0 script input_value signer)
        ok (
          record {
            accepted_contract = record {
              offered_contract = offered;
              accept_params = accept_params;
              funding_inputs = funding_inputs_info;
              adaptor_infos = v.adaptor_infos;
              adaptor_signatures = some cet_adaptor_signatures;
              accept_refund_signature = refund_signature;
              dlc_transactions = record txs { cets = v.cets };
            };
            adaptor_signatures = none;
            offer_refund_signature = offer_refund_signature;
            funding_signatures = dummy_funding_signatures;
            channel_id = channel_id;
          },
          own_signatures,
        )

  unfoldable pub get_sign_dlc : SignedContract → List Bytes → Result Error SignDlc
  get_sign_dlc c cet_adaptor_signatures = do
    contract_id ← get_contract_id out.bitcoin c.accepted_contract
    ok (record {
      protocol_version = protocol_version;
      contract_id = contract_id;
      cet_adaptor_signatures = cet_adaptor_signatures;
      refund_signature = c.offer_refund_signature;
      funding_signatures = c.funding_signatures;
    })

  unfoldable pub verify_accepted_and_sign_contract :
      OfferedContract → AcceptDlc → Result Error (SignedContract × SignDlc)
  verify_accepted_and_sign_contract offered msg = do
    accept_params ← params_of_accept msg
    first_info ← at_index offered.contract_info 0
    payouts ← get_payouts out.bitcoin out.secp out.numericals first_info offered.total_collateral
    txs ← of_dlc (
        create_dlc_transactions out.bitcoin offered.offer_params accept_params payouts
          offered.refund_locktime offered.fee_rate_per_vb 0 offered.cet_locktime
          offered.fund_output_serial_id)
    fund_output ← of_dlc (get_fund_output out.bitcoin txs)
    signer ← out.derive_contract_signer offered.keys_id
    made ←
        verify_accepted_and_sign_contract_internal offered accept_params msg.funding_inputs
          msg.refund_signature msg.cet_adaptor_signatures fund_output.value signer none none txs
          none
    signed_msg ← get_sign_dlc made.0 made.1
    ok (made.0, signed_msg)

  unfoldable pub verify_accepted_and_sign_loan_contract :
      OfferedContract → AcceptDlc → Transaction → Bytes → Result Error (SignedContract × SignDlc)
  verify_accepted_and_sign_loan_contract offered msg collateral_tx collateral_script_pubkey = do
    accept_params ← params_of_accept msg
    first_info ← at_index offered.contract_info 0
    payouts ← get_payouts out.bitcoin out.secp out.numericals first_info offered.total_collateral
    txs ← of_dlc (
        create_loan_expiration_dlc_transactions out.bitcoin offered.offer_params accept_params
          payouts offered.refund_locktime offered.cet_locktime collateral_tx
          collateral_script_pubkey)
    fund_output ← of_dlc (get_fund_output out.bitcoin txs)
    signer ← out.derive_contract_signer offered.keys_id
    made ←
        verify_accepted_and_sign_contract_internal offered accept_params msg.funding_inputs
          msg.refund_signature msg.cet_adaptor_signatures fund_output.value signer none none txs
          none
    signed_msg ← get_sign_dlc made.0 made.1
    ok (made.0, signed_msg)
