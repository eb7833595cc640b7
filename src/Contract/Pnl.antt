-- ===== src/Contract/Pnl.antt =====
-- `AcceptedContract::compute_pnl` of
-- stable-borrow-cli/crates/dlc-manager/src/contract/accepted_contract.rs.
pub mod Sum
use p2p_btc_lending.Prelude.{
  ℕ, Bool, List, [], ◌∷◌, ltb, if◌then◌else◌, bytes_eq, Result, ok, err, ◌>>=◌, ◌+◌, ◌≡◌, ◌<◌,
  arith, refl,
}
use p2p_btc_lending.Prelude.Int.{ℤ, sub_ℕ, pos, ◌+ℤ◌, sub_ℕ-add}
use p2p_btc_lending.Dlc.Types.{Bytes, TxOut, Transaction, PartyParams}
use p2p_btc_lending.Contract.Types.{Error, out_of_range, AcceptedContract}

-- `Amount::to_signed`
abbrev pub to_signed : ℕ → Result Error ℕ
to_signed n = if ltb n 9223372036854775808 then ok n else err out_of_range

-- The value of the first output to a script, or nothing.
unfoldable pub paid_to : Bytes → List TxOut → ℕ
paid_to script [] = 0
paid_to script (o ∷ os) =
    let rest = paid_to script os in if bytes_eq o.script_pubkey script then o.value else rest

abbrev pub own_params : AcceptedContract → PartyParams
own_params c =
    if c.offered_contract.is_offer_party then c.offered_contract.offer_params else c.accept_params

unfoldable pub compute_pnl : AcceptedContract → Transaction → Result Error ℤ
unfolding paid_to
compute_pnl c cet = do
  final_payout ← to_signed (paid_to (own_params c).payout_script_pubkey cet.output)
  collateral ← to_signed (own_params c).collateral
  ok (sub_ℕ final_payout collateral)
