-- ===== src/Dlc/Script.antt =====
-- The redeem scripts of stable-borrow-cli/crates/dlc/src/lib.rs, as the calls made on a builder. A
-- script is the concatenation of the bytes that each call appends.
pub mod Suffix
use p2p_btc_lending.Prelude.{ℕ, Bool, List, [], ◌∷◌, ◌++◌, if◌then◌else◌}
use p2p_btc_lending.Dlc.Types.{
  Bytes, Bitcoin, Opcode, op_pushnum_2, op_checkmultisig, op_depth, op_equal, op_if,
  op_checksigverify, op_csv, op_else, op_codeseparator, op_size, op_equalverify, op_sha256,
  op_checksig, op_endif, op_2swap, op_pick, op_notif, op_drop, op_1sub, Instruction, push_opcode,
  push_slice, push_int, push_sequence,
}

unfoldable pub into_script : Bitcoin → List Instruction → Bytes
into_script b [] = []
into_script b (i ∷ is) = b.encode i ++ into_script b is

-- The two keys stand in their order, whichever party gives which.
unfoldable pub make_funding_redeemscript : Bitcoin → Bytes → Bytes → Bytes
make_funding_redeemscript b x y = into_script b (
    push_opcode op_pushnum_2
    ∷ push_slice (if b.pubkey_le x y then x else y)
    ∷ push_slice (if b.pubkey_le x y then y else x)
    ∷ push_opcode op_pushnum_2
    ∷ push_opcode op_checkmultisig
    ∷ [])

abbrev pub loan_funding_instructions : Bytes → Bytes → ℕ → Bytes → List Instruction
loan_funding_instructions borrower_pubkey lender_pubkey relative_locktime borrower_hash =
    push_slice borrower_pubkey
    ∷ push_opcode op_depth
    ∷ push_opcode op_pushnum_2
    ∷ push_opcode op_equal
    ∷ push_opcode op_if
    ∷ push_opcode op_checksigverify
    ∷ push_sequence relative_locktime
    ∷ push_opcode op_csv
    ∷ push_opcode op_else
    ∷ push_opcode op_codeseparator
    ∷ push_opcode op_checksigverify
    ∷ push_opcode op_size
    ∷ push_int 16
    ∷ push_opcode op_equalverify
    ∷ push_opcode op_sha256
    ∷ push_slice borrower_hash
    ∷ push_opcode op_equalverify
    ∷ push_slice lender_pubkey
    ∷ push_opcode op_checksig
    ∷ push_opcode op_endif
    ∷ []

-- The redeem script of the escrow: the borrower alone after a delay, or both with the preimage.
unfoldable pub make_loan_funding_redeemscript : Bitcoin → Bytes → Bytes → ℕ → Bytes → Bytes
make_loan_funding_redeemscript b borrower_pubkey lender_pubkey relative_locktime borrower_hash =
    into_script b
      (loan_funding_instructions borrower_pubkey lender_pubkey relative_locktime borrower_hash)

unfoldable pub make_loan_escrow_after_codesep_script : Bitcoin → Bytes → Bytes → Bytes
make_loan_escrow_after_codesep_script b lender_pubkey borrower_hash = into_script b (
    push_opcode op_checksigverify
    ∷ push_opcode op_size
    ∷ push_int 16
    ∷ push_opcode op_equalverify
    ∷ push_opcode op_sha256
    ∷ push_slice borrower_hash
    ∷ push_opcode op_equalverify
    ∷ push_slice lender_pubkey
    ∷ push_opcode op_checksig
    ∷ push_opcode op_endif
    ∷ [])

abbrev pub collateral_instructions : Bytes → Bytes → Bytes → List Instruction
collateral_instructions borrower_pubkey lender_pubkey lender_hash =
    push_slice lender_pubkey
    ∷ push_opcode op_2swap
    ∷ push_slice borrower_pubkey
    ∷ push_int 2
    ∷ push_opcode op_pick
    ∷ push_opcode op_notif
    ∷ push_opcode op_checksigverify
    ∷ push_opcode op_drop
    ∷ push_opcode op_checksig
    ∷ push_opcode op_else
    ∷ push_opcode op_codeseparator
    ∷ push_opcode op_checksigverify
    ∷ push_opcode op_1sub
    ∷ push_opcode op_notif
    ∷ push_opcode op_checksig
    ∷ push_opcode op_else
    ∷ push_opcode op_drop
    ∷ push_opcode op_size
    ∷ push_int 16
    ∷ push_opcode op_equalverify
    ∷ push_opcode op_sha256
    ∷ push_slice lender_hash
    ∷ push_opcode op_equal
    ∷ push_opcode op_endif
    ∷ push_opcode op_endif
    ∷ []

-- The redeem script of the collateral.
unfoldable pub make_collateral_redeemscript : Bitcoin → Bytes → Bytes → Bytes → Bytes
make_collateral_redeemscript b borrower_pubkey lender_pubkey lender_hash =
    into_script b (collateral_instructions borrower_pubkey lender_pubkey lender_hash)

unfoldable pub make_collateral_after_codesep_script : Bitcoin → Bytes → Bytes
make_collateral_after_codesep_script b lender_hash = into_script b (
    push_opcode op_checksigverify
    ∷ push_opcode op_1sub
    ∷ push_opcode op_notif
    ∷ push_opcode op_checksig
    ∷ push_opcode op_else
    ∷ push_opcode op_drop
    ∷ push_opcode op_size
    ∷ push_int 16
    ∷ push_opcode op_equalverify
    ∷ push_opcode op_sha256
    ∷ push_slice lender_hash
    ∷ push_opcode op_equal
    ∷ push_opcode op_endif
    ∷ push_opcode op_endif
    ∷ [])
