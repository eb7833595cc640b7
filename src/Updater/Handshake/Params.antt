-- ===== src/Updater/Handshake/Params.antt =====
-- The parameters that a party announces are those that the other party computes from its message.
use p2p_btc_lending.Prelude.{
  ℕ, ◌≡◌, refl, ap, sym, subst, ◌∙◌, List, [], ◌∷◌, ◌++◌, some, get_elem?, Result, ok, >>=-eq-ok,
  >>=-ok, unwrap, unwrap-eq-ok, ok-inj, at_index, for_each, suc,
}
use p2p_btc_lending.Prelude.Loops.{for_each-keeps, for_each-snoc}
use p2p_btc_lending.Dlc.Types.{Bytes, TxOut, Transaction, TxInputInfo, PartyParams}
use p2p_btc_lending.Dlc.Checked.{amount_add}
use p2p_btc_lending.Dlc.Util.{weight_to_fee}
use p2p_btc_lending.Messages.{FundingInput}
use p2p_btc_lending.Contract.Types.{Error}
use p2p_btc_lending.Contract.Info.{of_dlc}
use p2p_btc_lending.Updater.{
  Outside, Utxo, Funds, to_tx_input_info, funding_input_of, input_info, of_option,
  get_half_common_fee, add_utxo, add_input_info, get_tx_input_infos, get_party_params,
}

-- A transaction of the blockchain is read back as it was written.
pub record IsEncoding (out : Outside) : Type 0 where
  pub decode-encode :
      (txid : Bytes) (t : Transaction)
      → out.get_transaction txid ≡ ok t
      → out.consensus_decode (out.consensus_encode t) ≡ some t

abbrev no_funds : Funds
no_funds = record { drawn = 2; funding_inputs = []; funding_tx_info = []; total_input = 0 }

module _ (out : Outside) (encoding : IsEncoding out) where
  -- The infos and the amount that the loop has collected are those of its inputs.
  abbrev AreRead : Funds → Type 0
  AreRead f = get_tx_input_infos out f.funding_inputs ≡ ok (f.funding_tx_info, f.total_input)

  start-AreRead : AreRead no_funds
  unfolding get_tx_input_infos for_each
  start-AreRead = refl

  input_read :
      (u : Utxo) (prev_tx : Transaction) (drawn : ℕ) (acc : List TxInputInfo × ℕ) (spent : TxOut)
      (total : ℕ)
      → out.consensus_decode (out.consensus_encode prev_tx) ≡ some prev_tx
      → get_elem? prev_tx.output u.outpoint.vout ≡ some spent
      → of_dlc (amount_add acc.1 spent.value) ≡ ok total
      → add_input_info out (funding_input_of out u prev_tx drawn) acc
        ≡ ok
            (acc.0 ++ input_info out (funding_input_of out u prev_tx drawn) prev_tx 107 ∷ [], total)
  unfolding add_input_info
  input_read u prev_tx drawn acc spent total decoded found added =
      >>=-ok _ (ap of_option decoded) (>>=-ok _ (ap of_option found) (>>=-ok _ added refl))

  input_made :
      (u : Utxo) (prev_tx : Transaction) (drawn : ℕ)
      → out.consensus_decode (out.consensus_encode prev_tx) ≡ some prev_tx
      → to_tx_input_info out (funding_input_of out u prev_tx drawn)
        ≡ ok (input_info out (funding_input_of out u prev_tx drawn) prev_tx 107)
  unfolding to_tx_input_info
  input_made u prev_tx drawn decoded = >>=-ok _ (ap unwrap decoded) refl

  add_utxo-AreRead : (u : Utxo) (f f' : Funds) → AreRead f → add_utxo out u f ≡ ok f' → AreRead f'
  unfolding add_utxo get_tx_input_infos
  add_utxo-AreRead u f f' r e =
      let (prev_tx, known, e1) = >>=-eq-ok (out.get_transaction u.outpoint.txid) _ e in
      let (spent, read, e2) = >>=-eq-ok (at_index prev_tx.output u.outpoint.vout) _ e1 in
      let (total, added, e3) = >>=-eq-ok (of_dlc (amount_add f.total_input spent.value)) _ e2 in
      let decoded = encoding.decode-encode u.outpoint.txid prev_tx known in
      let i = funding_input_of out u prev_tx f.drawn in
      let made : Funds = record {
        drawn = suc f.drawn;
        funding_inputs = f.funding_inputs ++ i ∷ [];
        funding_tx_info = f.funding_tx_info ++ input_info out i prev_tx 107 ∷ [];
        total_input = total;
      } in
      let made_ok : Result Error Funds = ok made in
      let e4 : made_ok ≡ ok f' = sym (>>=-ok _ (input_made u prev_tx f.drawn decoded) refl) ∙ e3 in
      let same : made ≡ f' = cc in
      let seen =
        input_read u prev_tx f.drawn (f.funding_tx_info, f.total_input) spent total decoded
          (unwrap-eq-ok (get_elem? prev_tx.output u.outpoint.vout) read) added in
      subst AreRead same (for_each-snoc (add_input_info out) f.funding_inputs i _ _ _ r seen)

  -- The funding inputs of a party are read by the other party as the same infos and the same amount,
  -- if each known transaction is decoded as it was encoded; the party's key is its signer's, and its
  -- collateral the given one.
  pub get_tx_input_infos-get_party_params :
      (own fee : ℕ) (signer : Bytes) (params : PartyParams) (inputs : List FundingInput)
      → get_party_params out own fee signer ≡ ok (params, inputs)
      → (get_tx_input_infos out inputs ≡ ok (params.inputs, params.input_amount))
        × (params.fund_pubkey ≡ out.secp.public_key signer)
        × (params.collateral ≡ own)
  unfolding get_party_params
  get_tx_input_infos-get_party_params own fee signer params inputs e =
      let (payout, _, e1) = >>=-eq-ok out.get_new_address _ e in
      let (change, _, e2) = >>=-eq-ok out.get_new_change_address _ e1 in
      let (half, _, e3) = >>=-eq-ok (get_half_common_fee fee) _ e2 in
      let (with_fund, _, e4) = >>=-eq-ok (of_dlc (amount_add own half)) _ e3 in
      let (output_fee, _, e5) = >>=-eq-ok (of_dlc (weight_to_fee 124 fee)) _ e4 in
      let (required, _, e6) = >>=-eq-ok (of_dlc (amount_add with_fund output_fee)) _ e5 in
      let (utxos, _, e7) = >>=-eq-ok (out.get_utxos_for_amount required fee) _ e6 in
      let (funds, gathered, e8) = >>=-eq-ok (for_each (add_utxo out) utxos no_funds) _ e7 in
      let read =
        for_each-keeps AreRead add_utxo-AreRead utxos no_funds funds start-AreRead gathered in
      let made : PartyParams × List FundingInput = (
        record {
          fund_pubkey = out.secp.public_key signer;
          change_script_pubkey = change;
          change_serial_id = out.serial_id 1;
          payout_script_pubkey = payout;
          payout_serial_id = out.serial_id 0;
          inputs = funds.funding_tx_info;
          input_amount = funds.total_input;
          collateral = own;
        },
        funds.funding_inputs,
      ) in
      let made_ok : Result Error (PartyParams × List FundingInput) = ok made in
      let e9 : made_ok ≡ ok (params, inputs) = e8 in
      let same = ok-inj made_ok refl e9 in
      subst
        (λ (p : PartyParams × List FundingInput).
          (get_tx_input_infos out p.1 ≡ ok (p.0.inputs, p.0.input_amount))
          × (p.0.fund_pubkey ≡ out.secp.public_key signer)
          × (p.0.collateral ≡ own))
        same (read, refl, refl)
