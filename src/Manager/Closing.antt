-- ===== src/Manager/Closing.antt =====
-- How contracts end, in stable-borrow-cli/crates/dlc-manager/src/manager.rs.
pub mod Outcomes
pub mod Refund
use p2p_btc_lending.Prelude.{
  ℕ, Bool, true, false, ◌&&◌, ◌||◌, List, [], ◌∷◌, Option, some, none, ltb, leb, ◌==◌,
  if◌then◌else◌, bytes_eq, Result, ok, err,
}
use p2p_btc_lending.Prelude
use p2p_btc_lending.Prelude.Int.{ℤ}
use p2p_btc_lending.Contract.Pnl.{compute_pnl}
use p2p_btc_lending.Dlc.Types.{
  Bytes, OutPoint, TxIn, TxOut, Transaction, PartyParams, DlcTransactions,
}
use p2p_btc_lending.Dlc.Funding.{get_fund_outpoint}
use p2p_btc_lending.Messages.{OracleAttestation}
use p2p_btc_lending.Contract.Types.{
  Error, out_of_range, invalid_parameters, dlc_error, AcceptedContract, SignedContract,
  PreClosedContract, Contract, confirmed, pre_closed, closed, refunded,
}
use p2p_btc_lending.Contract.Ids.{get_contract_id}
use p2p_btc_lending.Manager.World.{Manager, Step, ◌>>=◌, ◌>>◌, lift, update, broadcast}

abbrev pub nb_confirmations : ℕ
nb_confirmations = 6

abbrev pub closed_with :
    SignedContract → Option (List OracleAttestation) → Transaction → ℤ → Bytes → Contract
closed_with contract attestations tx pnl id = closed (record {
  attestations = attestations;
  signed_cet = some tx;
  contract_id = id;
  temporary_contract_id = contract.accepted_contract.offered_contract.id;
  counter_party_id = contract.accepted_contract.offered_contract.counter_party;
  pnl = pnl;
})

module _ (m : Manager) where
  -- The record of a contract that was closed by a transaction.
  unfoldable pub closed_by :
      SignedContract → Option (List OracleAttestation) → Transaction → Step m Contract
  closed_by contract attestations tx = do
    pnl ← lift (compute_pnl contract.accepted_contract tx)
    id ← lift (get_contract_id m.bitcoin contract.accepted_contract)
    lift (ok (closed_with contract attestations tx pnl id))

  abbrev pub pre_closed_by :
      SignedContract → Option (List OracleAttestation) → Transaction → Contract
  pre_closed_by contract attestations tx =
      pre_closed
        (record { signed_contract = contract; attestations = attestations; signed_cet = tx })

  unfoldable pub close_contract :
      SignedContract → Transaction → List OracleAttestation → Step m Contract
  unfolding closed_by
  close_contract contract signed_cet attestations = do
    confirmations ← lift (m.get_transaction_confirmations (m.bitcoin.compute_txid signed_cet))
    if ltb confirmations 1
        then (do
          broadcast m signed_cet
          lift (ok (pre_closed_by contract (some attestations) signed_cet)))
        else if ltb confirmations nb_confirmations
        then lift (ok (pre_closed_by contract (some attestations) signed_cet))
        else closed_by contract (some attestations) signed_cet

  -- Here the id is computed before the profit.
  unfoldable pub check_preclosed_contract : PreClosedContract → Step m (Unit {0})
  unfolding closed_by
  check_preclosed_contract contract = do
    confirmations ←
        lift (m.get_transaction_confirmations (m.bitcoin.compute_txid contract.signed_cet))
    if leb nb_confirmations confirmations
        then (do
          id ← lift (get_contract_id m.bitcoin contract.signed_contract.accepted_contract)
          closed_contract ←
              closed_by contract.signed_contract contract.attestations contract.signed_cet
          update m closed_contract)
        else lift (ok tt)

  unfoldable pub check_signed_contract : SignedContract → Step m (Unit {0})
  check_signed_contract contract = do
    confirmations ← lift (
        m.get_transaction_confirmations
          (m.bitcoin.compute_txid contract.accepted_contract.dlc_transactions.fund))
    if leb nb_confirmations confirmations then update m (confirmed contract) else lift (ok tt)

  -- The refund is sent if it has no confirmation.
  unfoldable pub send_refund : SignedContract → Step m (Unit {0})
  send_refund contract = do
    signer ← lift (m.derive_contract_signer contract.accepted_contract.offered_contract.keys_id)
    refund ← lift (m.get_signed_refund contract signer)
    broadcast m refund

  unfoldable pub check_refund : SignedContract → Step m (Unit {0})
  unfolding send_refund
  check_refund contract =
      let refund = contract.accepted_contract.dlc_transactions.refund in
      if leb refund.lock_time m.unix_time_now
      then (do
        confirmations ← lift (m.get_transaction_confirmations (m.bitcoin.compute_txid refund))
        if confirmations == 0 then send_refund contract else lift (ok tt)
        update m (refunded contract))
      else lift (ok tt)

  abbrev pub outpoint_eq : OutPoint → OutPoint → Bool
  outpoint_eq p q = bytes_eq p.txid q.txid && (p.vout == q.vout)

  unfoldable pub spends : OutPoint → List TxIn → Bool
  spends o [] = false
  spends o (i ∷ is) = outpoint_eq i.previous_output o || spends o is

  -- The funding output is looked up only where there is an input to compare it with.
  unfoldable pub spends_fund : DlcTransactions → List TxIn → Step m Bool
  unfolding spends
  spends_fund txs [] = lift (ok false)
  spends_fund txs (i ∷ is) = do
    fund ← lift (Prelude.map_err dlc_error (get_fund_outpoint m.bitcoin txs))
    lift (ok (spends fund (i ∷ is)))

  unfoldable pub on_counterparty_close : SignedContract → Transaction → ℕ → Step m Contract
  unfolding spends_fund closed_by
  on_counterparty_close contract closing_tx confirmations = do
    spent ← spends_fund contract.accepted_contract.dlc_transactions closing_tx.input
    lift (Prelude.ensure spent invalid_parameters)
    if bytes_eq (m.bitcoin.compute_txid contract.accepted_contract.dlc_transactions.refund)
          (m.bitcoin.compute_txid closing_tx)
        then (do update m (refunded contract); lift (ok (refunded contract)))
        else (do
          ended ←
              if ltb confirmations nb_confirmations
              then lift (ok (pre_closed_by contract none closing_tx))
              else closed_by contract none closing_tx
          update m ended
          lift (ok ended))
