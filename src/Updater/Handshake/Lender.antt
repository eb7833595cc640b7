-- ===== src/Updater/Handshake/Lender.antt =====
-- The lender's side of the acceptance of a loan.
use p2p_btc_lending.Prelude.{
  ℕ, ◌≡◌, refl, ap, ◌∙◌, Bool, List, [], All, some, none, Result, ok, map_err-eq-ok, >>=-eq-ok,
  >>=-ok, for_each,
}
use p2p_btc_lending.Dlc.Types.{Bytes, Transaction, PartyParams, DlcTransactions}
use p2p_btc_lending.Dlc.Checked.{amount_add}
use p2p_btc_lending.Dlc.Signing.{get_raw_sig_for_tx_input, get_sig_hash_msg, zip}
use p2p_btc_lending.Dlc.Signing.Schemes.{IsSound, IsHashing}
use p2p_btc_lending.Messages.{FundingInput, AcceptDlc, AcceptLoanDlc, SignDlc, to_accept_dlc}
use p2p_btc_lending.Contract.Types.{
  Error, dlc_error, ContractInfo, AdaptorInfo, OfferedContract, SignedContract, enum,
}
use p2p_btc_lending.Contract.Info.{of_dlc}
use p2p_btc_lending.Contract.Info.Agreement.{IsEnum}
use p2p_btc_lending.Updater.{Outside, get_tx_input_infos, add_input_info}
use p2p_btc_lending.Updater.Accept.{Signatures}
use p2p_btc_lending.Updater.Sign.{
  params_of_accept, add_verified, verify_signatures, add_own_signatures,
  verify_accepted_and_sign_contract_internal, verify_accepted_and_sign_loan_contract,
  dummy_funding_signatures,
}
use p2p_btc_lending.Updater.Handshake.Signatures.{Made, verify_signatures-Made}
use p2p_btc_lending.Updater.Handshake.Answers.{HasInput, own_signatures-Made}
use p2p_btc_lending.Updater.Handshake.Transactions.{with_witness}

-- The lender's own keys, and what its copy of the offer has for itself.
pub record Lender : Type 0 where
  pub derive_contract_signer : Bytes → Result Error Bytes
  pub is_offer_party : Bool
  pub counter_party : Bytes
  pub keys_id : Bytes
  -- the secret key of the contract, and the witness that completes the collateral transaction
  pub own : Bytes
  pub witness : List Bytes

abbrev pub outside_of : Outside → Lender → Outside
outside_of out l = record out { derive_contract_signer = l.derive_contract_signer }

abbrev pub offer_of : OfferedContract → Lender → OfferedContract
offer_of o l = record o {
  is_offer_party = l.is_offer_party;
  counter_party = l.counter_party;
  keys_id = l.keys_id;
}

-- What the lender answers.
abbrev pub answers :
    Outside → Lender → OfferedContract → AcceptLoanDlc → Result Error (SignedContract × SignDlc)
answers out l o msg =
    verify_accepted_and_sign_loan_contract (outside_of out l) (offer_of o l) (to_accept_dlc msg)
      (with_witness msg.signed_escrow_spend_tx l.witness) msg.collateral_spk

module _ (out : Outside) (l : Lender) where
  pub params_of_accept-same :
      (msg : AcceptDlc) → params_of_accept (outside_of out l) msg ≡ params_of_accept out msg
  unfolding params_of_accept get_tx_input_infos add_input_info
  params_of_accept-same msg = refl

  verify_signatures-same :
      (o : OfferedContract) (params : PartyParams) (refund : Bytes) (sigs : List Bytes) (value : ℕ)
      (script pk : Bytes) (txs : DlcTransactions)
      → verify_signatures (outside_of out l) (offer_of o l) params refund sigs value script pk txs
        ≡ verify_signatures out o params refund sigs value script pk txs
  unfolding verify_signatures add_verified
  verify_signatures-same o params refund sigs value script pk txs = refl

  own_signatures-same :
      (signer script : Bytes) (value : ℕ) (cets : List Transaction)
      (xs : List (ContractInfo × AdaptorInfo))
      → for_each (add_own_signatures (outside_of out l) signer script value cets) xs []
        ≡ for_each (add_own_signatures out signer script value cets) xs []
  unfolding add_own_signatures
  own_signatures-same signer script value cets xs = refl

-- A transaction that one key signs, every key signs.
get_raw_sig_again :
    (out : Outside) (tx : Transaction) (i : ℕ) (script : Bytes) (value : ℕ) (sk own sig : Bytes)
    → get_raw_sig_for_tx_input out.secp tx i script value sk ≡ ok sig
    → (sig' : Bytes) × (get_raw_sig_for_tx_input out.secp tx i script value own ≡ ok sig')
unfolding get_raw_sig_for_tx_input
get_raw_sig_again out tx i script value sk own sig e =
    let (h, hashed, _) = >>=-eq-ok (get_sig_hash_msg out.secp tx i script value) _ e in
    (out.secp.sign_ecdsa_low_r h own, >>=-ok _ hashed refl)

module _ (out : Outside) (sound : IsSound out.secp) (hashing : IsHashing out.secp) (l : Lender)
    (o : OfferedContract) (enums : All IsEnum o.contract_info) where
  -- The contract that the lender has signed.
  abbrev pub signed_of :
      PartyParams
      → List FundingInput
      → DlcTransactions
      → Signatures
      → Bytes
      → Bytes
      → SignedContract
  signed_of params inputs txs s refund own_refund = record {
    accepted_contract = record {
      offered_contract = offer_of o l;
      accept_params = params;
      funding_inputs = inputs;
      adaptor_infos = s.adaptor_infos;
      adaptor_signatures = some s.adaptor_sigs;
      accept_refund_signature = refund;
      dlc_transactions = record txs { cets = s.cets };
    };
    adaptor_signatures = none;
    offer_refund_signature = own_refund;
    funding_signatures = dummy_funding_signatures;
    channel_id = none;
  }

  pub internal-Made :
      (params : PartyParams) (inputs : List FundingInput) (sk : Bytes) (value total : ℕ)
      (txs : DlcTransactions) (s : Signatures) (refund : Bytes)
      → params.fund_pubkey ≡ out.secp.public_key sk
      → of_dlc (amount_add o.offer_params.collateral params.collateral) ≡ ok total
      → All HasInput txs.cets
      → Made out o params sk value txs.funding_script_pubkey txs s refund
      → (own_refund : Bytes) × ((sigs : List Bytes) × (get_raw_sig_for_tx_input out.secp txs.refund
              0 txs.funding_script_pubkey value l.own
            ≡ ok own_refund)
          × All (λ i. i ≡ enum) s.adaptor_infos
          × (for_each
                (add_own_signatures out l.own txs.funding_script_pubkey value s.cets)
                (zip o.contract_info s.adaptor_infos)
                []
              ≡ ok sigs)
          × (verify_accepted_and_sign_contract_internal
                (outside_of out l)
                (offer_of o l)
                params
                inputs
                refund
                s.adaptor_sigs
                value
                l.own
                none
                none
                txs
                none
              ≡ ok (signed_of params inputs txs s refund own_refund, sigs)))
  unfolding verify_accepted_and_sign_contract_internal
  internal-Made params inputs sk value total txs s refund key added have m =
      let script = txs.funding_script_pubkey in
      let (own_refund, signed) = get_raw_sig_again out txs.refund 0 script value sk l.own refund (
        map_err-eq-ok dlc_error (get_raw_sig_for_tx_input out.secp txs.refund 0 script value sk)
          m.signed) in
      let (all_enum, (sigs, own_signed)) =
        own_signatures-Made out hashing o params sk l.own value script txs s refund enums have m in
      let verified =
        verify_signatures-same out l o params refund s.adaptor_sigs value script params.fund_pubkey
          txs
        ∙ verify_signatures-Made out sound o params sk key value script txs total s refund enums
            added refl m in
      let own_signed' =
        own_signatures-same out l l.own script value s.cets (zip o.contract_info s.adaptor_infos)
        ∙ own_signed in
      (
        own_refund,
        (
          sigs,
          signed,
          all_enum,
          own_signed,
          >>=-ok _ verified (>>=-ok _ own_signed' (>>=-ok _ (ap of_dlc signed) refl)),
        ),
      )
