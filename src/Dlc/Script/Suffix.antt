-- ===== src/Dlc/Script/Suffix.antt =====
-- The scripts that are signed against those that are spent: a signature that is checked behind an
-- OP_CODESEPARATOR covers the part of the script after it.
use p2p_btc_lending.Prelude.{
  ℕ, zero, suc, ◌≡◌, refl, Bool, true, false, List, [], ◌∷◌, ◌++◌, if◌then◌else◌, sym, arith,
}
use mathlib.Core.List.{append_assoc}
use p2p_btc_lending.Dlc.Types.{Bytes, Bitcoin, op_codeseparator, Instruction, push_opcode}
use p2p_btc_lending.Dlc.Script.{
  into_script, make_funding_redeemscript, loan_funding_instructions, make_loan_funding_redeemscript,
  make_loan_escrow_after_codesep_script, collateral_instructions, make_collateral_redeemscript,
  make_collateral_after_codesep_script,
}

abbrev is_codesep : Instruction → Bool
is_codesep (push_opcode op_codeseparator) = true
is_codesep _ = false

-- What stands behind the last separator, if there is one.
abbrev pub after_codesep_from : List Instruction → List Instruction → List Instruction
after_codesep_from found [] = found
after_codesep_from found (i ∷ is) = after_codesep_from (if is_codesep i then is else found) is

abbrev pub after_codesep : List Instruction → List Instruction
after_codesep is = after_codesep_from is is

into_script-append :
    (b : Bitcoin) (is js : List Instruction)
    → into_script b (is ++ js) ≡ into_script b is ++ into_script b js
unfolding into_script
into_script-append b [] js = refl
into_script-append b (i ∷ is) js =
    rw (into_script-append b is js) (sym (append_assoc (b.encode i) _ _))

abbrev take_instructions : ℕ → List Instruction → List Instruction
take_instructions zero is = []
take_instructions (suc n) [] = []
take_instructions (suc n) (i ∷ is) = i ∷ take_instructions n is

-- The script that both parties sign for the escrow is the escrow's redeem script from behind its
-- last separator, and ends the redeem script byte for byte.
pub make_loan_escrow_after_codesep_script_suffix :
    (b : Bitcoin) (borrower lender : Bytes) (locktime : ℕ) (hash : Bytes)
    → (into_script b (after_codesep (loan_funding_instructions borrower lender locktime hash))
        ≡ make_loan_escrow_after_codesep_script b lender hash)
      × ((front : Bytes) × (make_loan_funding_redeemscript b borrower lender locktime hash
            ≡ front ++ make_loan_escrow_after_codesep_script b lender hash))
unfolding make_loan_escrow_after_codesep_script make_loan_funding_redeemscript
make_loan_escrow_after_codesep_script_suffix b borrower lender locktime hash = (
  refl,
  (
    into_script b (take_instructions 10 (loan_funding_instructions borrower lender locktime hash)),
    into_script-append b
        (take_instructions 10 (loan_funding_instructions borrower lender locktime hash)) _,
  ),
)

-- The script for the collateral's cooperative spend is the collateral's redeem script from behind
-- its last separator, and ends the redeem script byte for byte.
pub make_collateral_after_codesep_script_suffix :
    (b : Bitcoin) (borrower lender hash : Bytes)
    → (into_script b (after_codesep (collateral_instructions borrower lender hash))
        ≡ make_collateral_after_codesep_script b hash)
      × ((front : Bytes) × (make_collateral_redeemscript b borrower lender hash
            ≡ front ++ make_collateral_after_codesep_script b hash))
unfolding make_collateral_after_codesep_script make_collateral_redeemscript
make_collateral_after_codesep_script_suffix b borrower lender hash = (
  refl,
  (
    into_script b (take_instructions 11 (collateral_instructions borrower lender hash)),
    into_script-append b (take_instructions 11 (collateral_instructions borrower lender hash)) _,
  ),
)

-- With a total and antisymmetric order of the keys, the funding script is the same whichever party
-- is named first.
pub make_funding_redeemscript_comm :
    (b : Bitcoin) (x y : Bytes)
    → ((x y : Bytes) → b.pubkey_le x y ≡ false → b.pubkey_le y x ≡ true)
    → ((x y : Bytes) → b.pubkey_le x y ≡ true → b.pubkey_le y x ≡ true → x ≡ y)
    → make_funding_redeemscript b x y ≡ make_funding_redeemscript b y x
unfolding make_funding_redeemscript
make_funding_redeemscript_comm b x y total antisym =
    ground (arith, total x y, total y x, antisym x y)
