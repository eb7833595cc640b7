-- ===== src/Updater/AcceptLoan.antt =====
-- The borrower that accepts a loan: `accept_loan_contract` and its internal function in
-- stable-borrow-cli/crates/dlc-manager/src/contract_updater.rs, and the message that
-- src/contract/accepted_contract.rs makes.
use p2p_btc_lending.Prelude.{ℕ, List, [], ◌∷◌, Option, none, Result, ok, at_index, ◌>>=◌}
use p2p_btc_lending.Dlc.Types.{Bytes, TxIn, Transaction, PartyParams, DlcTransactions}
use p2p_btc_lending.Dlc.Funding.{get_fund_output}
use p2p_btc_lending.Dlc.Loan.{
  escrow_locktime, create_collateral_transaction, create_loan_expiration_dlc_transactions,
}
use p2p_btc_lending.Dlc.Script.{
  make_loan_funding_redeemscript, make_loan_escrow_after_codesep_script,
}
use p2p_btc_lending.Dlc.Signing.{get_sig_for_tx_input, set_witness, sighash_all}
use p2p_btc_lending.Messages.{FundingInput, AcceptLoanDlc}
use p2p_btc_lending.Contract.Types.{Error, OfferedLoanContract, AcceptedLoanContract}
use p2p_btc_lending.Contract.Info.{get_payouts, of_dlc}
use p2p_btc_lending.Updater.{Outside, get_party_params}
use p2p_btc_lending.Updater.Accept.{protocol_version, option_or, unwrap_ok, make_signatures}

-- `AcceptedLoanContract::get_accept_contract_msg`
unfoldable pub get_accept_loan_contract_msg :
    AcceptedLoanContract → List Bytes → ℕ → Bytes → Bytes → AcceptLoanDlc
get_accept_loan_contract_msg c ecdsa_adaptor_signatures escrow_amount escrow_spk collateral_spk =
    record {
      protocol_version = protocol_version;
      temporary_contract_id = c.offered_loan_contract.offered_contract.id;
      accept_collateral = c.accept_params.collateral;
      funding_pubkey = c.accept_params.fund_pubkey;
      payout_spk = c.accept_params.payout_script_pubkey;
      payout_serial_id = c.accept_params.payout_serial_id;
      funding_inputs = c.funding_inputs;
      change_spk = c.accept_params.change_script_pubkey;
      change_serial_id = c.accept_params.change_serial_id;
      cet_adaptor_signatures = ecdsa_adaptor_signatures;
      refund_signature = c.accept_refund_signature;
      negotiation_fields = none;
      escrow_txid = c.escrow_txid;
      borrower_hash = c.borrower_hash;
      signed_escrow_spend_tx = c.signed_escrow_spend_tx;
      escrow_amount = escrow_amount;
      escrow_spk = escrow_spk;
      collateral_spk = collateral_spk;
    }

module _ (out : Outside) where
  unfoldable pub accept_loan_contract_internal :
      OfferedLoanContract
      → PartyParams
      → List FundingInput
      → Bytes
      → ℕ
      → Option Bytes
      → DlcTransactions
      → Bytes
      → Bytes
      → Transaction
      → Result Error (AcceptedLoanContract × List Bytes)
  accept_loan_contract_internal loan accept_params funding_inputs adaptor_secret_key input_value
        input_script_pubkey txs escrow_txid borrower_hash signed_escrow_spend_tx =
      do
        made ←
            make_signatures out loan.offered_contract accept_params adaptor_secret_key input_value
              (option_or input_script_pubkey txs.funding_script_pubkey) txs
        ok (
          record {
            offered_loan_contract = loan;
            accept_params = accept_params;
            funding_inputs = funding_inputs;
            adaptor_infos = made.0.adaptor_infos;
            adaptor_signatures = none;
            accept_refund_signature = made.1;
            dlc_transactions = record txs { cets = made.0.cets };
            escrow_txid = escrow_txid;
            borrower_hash = borrower_hash;
            signed_escrow_spend_tx = signed_escrow_spend_tx;
          },
          made.0.adaptor_sigs,
        )

  -- The spending of the escrow that the borrower signed, with a place for the lender's signature: the
  -- transaction, the script of its output, and the escrow's amount.
  unfoldable pub sign_collateral :
      OfferedLoanContract → Bytes → Bytes → Bytes → Bytes → Result Error (Transaction × Bytes × ℕ)
  sign_collateral loan signer escrow_txid borrower_hash borrower_preimage_bytes = do
    let borrower_pubkey = out.secp.public_key signer
    let lender_pubkey = loan.offered_contract.offer_params.fund_pubkey
    let escrow_input : TxIn = record {
      previous_output = record { txid = escrow_txid; vout = 0 };
      script_sig = [];
      sequence = 0xffffffff;
      witness = [];
    }
    escrow_tx ← unwrap_ok (out.get_transaction escrow_txid)
    escrow_output ← at_index escrow_tx.output 0
    collateral ← unwrap_ok (
        create_collateral_transaction out.bitcoin borrower_pubkey lender_pubkey escrow_output.value
          escrow_input loan.lender_hash)
    borrower_signature ← unwrap_ok (
        get_sig_for_tx_input out.secp collateral.0 0
          (make_loan_escrow_after_codesep_script out.bitcoin lender_pubkey borrower_hash)
          escrow_output.value sighash_all signer)
    input ← of_dlc (
        set_witness 0
          ([]
            ∷ borrower_preimage_bytes
            ∷ borrower_signature
            ∷ make_loan_funding_redeemscript out.bitcoin borrower_pubkey lender_pubkey
                escrow_locktime borrower_hash
            ∷ [])
          collateral.0.input)
    ok (record collateral.0 { input = input }, collateral.1, escrow_output.value)

  unfoldable pub accept_loan_contract :
      OfferedLoanContract
      → Bytes
      → Bytes
      → Bytes
      → Result Error (AcceptedLoanContract × AcceptLoanDlc)
  accept_loan_contract loan escrow_txid borrower_hash borrower_preimage_bytes = do
    let offered = loan.offered_contract
    signer ← out.derive_contract_signer offered.keys_id
    collateral ← sign_collateral loan signer escrow_txid borrower_hash borrower_preimage_bytes
    own ← get_party_params out offered.total_collateral offered.fee_rate_per_vb signer
    first_info ← at_index offered.contract_info 0
    payouts ← get_payouts out.bitcoin out.secp out.numericals first_info offered.total_collateral
    txs ← of_dlc (
        create_loan_expiration_dlc_transactions out.bitcoin offered.offer_params own.0 payouts
          offered.refund_locktime offered.cet_locktime collateral.0 collateral.1)
    collateral_output ← of_dlc (get_fund_output out.bitcoin txs)
    made ←
        accept_loan_contract_internal loan own.0 own.1 signer collateral_output.value none txs
          escrow_txid borrower_hash collateral.0
    ok (
      made.0,
      get_accept_loan_contract_msg made.0 made.1 collateral.2
          (make_loan_escrow_after_codesep_script out.bitcoin
            loan.offered_contract.offer_params.fund_pubkey borrower_hash)
          collateral.1,
    )
