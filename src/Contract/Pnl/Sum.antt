-- ===== src/Contract/Pnl/Sum.antt =====
-- The profits of the two parties of a contract.
use p2p_btc_lending.Prelude.{
  ℕ, false, not, ◌+◌, ◌≤◌, ◌≡◌, ◌≢◌, ◌∙◌, sym, arith, ok, >>=-eq-ok, bytes_eq, bytes_eq_refl, keep,
  bytes_eq→eq, Bool-cases, inl, inr,
}
use p2p_btc_lending.Prelude.Int.{ℤ, sub_ℕ, pos, ◌+ℤ◌, sub_ℕ-add}
use p2p_btc_lending.Dlc.Types.{Bytes, TxIn, TxOut, Transaction}
use p2p_btc_lending.Dlc.Util.{discard_dust}
use p2p_btc_lending.Dlc.Cets.{create_cet}
use p2p_btc_lending.Contract.Types.{AcceptedContract}
use p2p_btc_lending.Contract.Pnl.{paid_to, own_params, to_signed, compute_pnl}

-- The contract as the other party stores it.
abbrev pub other_side : AcceptedContract → AcceptedContract
other_side c = record c {
  offered_contract = record c.offered_contract {
    is_offer_party = not c.offered_contract.is_offer_party;
  };
}

to_signed-ok : (n p : ℕ) → to_signed n ≡ ok p → p ≡ n
to_signed-ok n p h = ground arith

compute_pnl-eq-ok :
    (c : AcceptedContract) (tx : Transaction) (x : ℤ)
    → compute_pnl c tx ≡ ok x
    → x ≡ sub_ℕ (paid_to (own_params c).payout_script_pubkey tx.output) (own_params c).collateral
unfolding compute_pnl
compute_pnl-eq-ok c tx x h =
    let (p, ep, h1) =
      >>=-eq-ok (to_signed (paid_to (own_params c).payout_script_pubkey tx.output)) _ h in
    let (q, eq, h2) = >>=-eq-ok (to_signed (own_params c).collateral) _ h1 in
    cc (to_signed-ok _ p ep, to_signed-ok _ q eq, h2)

ap2_sub : (a b c d : ℕ) → sub_ℕ (a + b) (c + d) ≡ sub_ℕ (b + a) (d + c)
ap2_sub a b c d = ground arith

-- The profits that the two parties of a contract record for one closing transaction add up to what it
-- pays the two, less the two collaterals.
pub compute_pnl-sum :
    (c : AcceptedContract) (tx : Transaction) (x y : ℤ)
    → compute_pnl c tx ≡ ok x
    → compute_pnl (other_side c) tx ≡ ok y
    → x +ℤ y
      ≡ sub_ℕ
          (paid_to c.offered_contract.offer_params.payout_script_pubkey tx.output
            + paid_to c.accept_params.payout_script_pubkey tx.output)
          (c.offered_contract.offer_params.collateral + c.accept_params.collateral)
compute_pnl-sum c tx x y h k =
    let ex = compute_pnl-eq-ok c tx x h in
    let ey = compute_pnl-eq-ok (other_side c) tx y k in
    let o = c.offered_contract.offer_params in
    let a = c.accept_params in
    elim (Bool-cases c.offered_contract.is_offer_party) [
      | inl e ↦
          let f : x ≡ sub_ℕ (paid_to o.payout_script_pubkey tx.output) o.collateral =
            (rw e at ex) in
          let g : y ≡ sub_ℕ (paid_to a.payout_script_pubkey tx.output) a.collateral =
            (rw e at ey) in
          rw (f, g)
            (sub_ℕ-add (paid_to o.payout_script_pubkey tx.output) o.collateral
              (paid_to a.payout_script_pubkey tx.output) a.collateral)
      | inr e ↦
          let f : x ≡ sub_ℕ (paid_to a.payout_script_pubkey tx.output) a.collateral =
            (rw e at ex) in
          let g : y ≡ sub_ℕ (paid_to o.payout_script_pubkey tx.output) o.collateral =
            (rw e at ey) in
          rw (f, g)
            (sub_ℕ-add (paid_to a.payout_script_pubkey tx.output) a.collateral
                (paid_to o.payout_script_pubkey tx.output) o.collateral
              ∙ ap2_sub _ _ _ _)
    ]

paid_to-create_cet :
    (o a : TxOut) (i j lock : ℕ) (input : TxIn)
    → bytes_eq o.script_pubkey a.script_pubkey ≡ false
    → bytes_eq a.script_pubkey o.script_pubkey ≡ false
    → 1000 ≤ o.value
    → 1000 ≤ a.value
    → (paid_to o.script_pubkey (create_cet o i a j input lock).output ≡ o.value)
      × (paid_to a.script_pubkey (create_cet o i a j input lock).output ≡ a.value)
unfolding create_cet discard_dust keep paid_to
paid_to-create_cet o a i j lock input d d' ho ha =
    (ground (arith, bytes_eq_refl o.script_pubkey), ground (arith, bytes_eq_refl a.script_pubkey))

sub_self : (a : ℕ) → sub_ℕ a a ≡ pos 0
sub_self a = ground arith

bytes_eq-ne : (xs ys : Bytes) → xs ≢ ys → bytes_eq xs ys ≡ false
bytes_eq-ne xs ys n = elim (Bool-cases (bytes_eq xs ys)) [
  | inl e ↦ absurd (n (bytes_eq→eq xs ys e))
  | inr e ↦ e
]

-- When a contract closes with a payout that adds up to the two collaterals, with parts of at least
-- 1000 satoshis for two different scripts, one party's profit is the other's loss.
pub compute_pnl-zero_sum :
    (c : AcceptedContract) (vo va i j lock : ℕ) (input : TxIn) (x y : ℤ)
    → let o = c.offered_contract.offer_params in
      let a = c.accept_params in
      let cet =
        create_cet
          (record { value = vo; script_pubkey = o.payout_script_pubkey })
          i
          (record { value = va; script_pubkey = a.payout_script_pubkey })
          j
          input
          lock in
      o.payout_script_pubkey ≢ a.payout_script_pubkey
      → 1000 ≤ vo
      → 1000 ≤ va
      → vo + va ≡ o.collateral + a.collateral
      → compute_pnl c cet ≡ ok x
      → compute_pnl (other_side c) cet ≡ ok y
      → x +ℤ y ≡ pos 0
compute_pnl-zero_sum c vo va i j lock input x y n ho ha total hx hy =
    let o = c.offered_contract.offer_params in
    let a = c.accept_params in
    let out_o : TxOut = record { value = vo; script_pubkey = o.payout_script_pubkey } in
    let out_a : TxOut = record { value = va; script_pubkey = a.payout_script_pubkey } in
    let paid =
      paid_to-create_cet out_o out_a i j lock input (bytes_eq-ne _ _ n)
        (bytes_eq-ne _ _ (λ e. n (sym e))) ho ha in
    compute_pnl-sum c (create_cet out_o i out_a j input lock) x y hx hy
    ∙ rw (paid.0, paid.1, total) (sub_self (o.collateral + a.collateral))
