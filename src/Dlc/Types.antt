-- ===== src/Dlc/Types.antt =====
-- The data of stable-borrow-cli/crates/dlc/src/lib.rs, and the parts of the crates `bitcoin` and
-- `secp256k1_zkp` that it calls.
--
-- Byte strings are lists of numbers; a script, a transaction id, a public key (by its serialization)
-- and a hash are byte strings. An amount is a number of satoshis.
use p2p_btc_lending.Prelude.{ℕ, Bool, List, Option}

abbrev pub Bytes : Type 0
Bytes = List ℕ

pub record OutPoint : Type 0 where
  pub txid : Bytes
  pub vout : ℕ

pub record TxIn : Type 0 where
  pub previous_output : OutPoint
  pub script_sig : Bytes
  pub sequence : ℕ
  pub witness : List Bytes

pub record TxOut : Type 0 where
  pub value : ℕ
  pub script_pubkey : Bytes

pub record Transaction : Type 0 where
  pub version : ℕ
  pub lock_time : ℕ
  pub input : List TxIn
  pub output : List TxOut

-- The opcodes that the redeem scripts use.
pub data Opcode : Type 0 where
  op_pushnum_2 op_checkmultisig op_depth op_equal op_if op_checksigverify op_csv op_else : Opcode
  op_codeseparator op_size op_equalverify op_sha256 op_checksig op_endif op_2swap op_pick : Opcode
  op_notif op_drop op_1sub : Opcode

-- One call of a script builder.
pub data Instruction : Type 0 where
  push_opcode : Opcode → Instruction
  push_slice : Bytes → Instruction
  push_int : ℕ → Instruction
  push_sequence : ℕ → Instruction

-- What the code calls of the crate `bitcoin`: the bytes that a builder's call appends, hashes, and
-- the script of a witness program, which `WitnessProgram::new` may refuse.
pub record Bitcoin : Type 0 where
  pub encode : Instruction → Bytes
  pub sha256 : Bytes → Bytes
  pub to_p2wsh : Bytes → Bytes
  pub witness_program : Bytes → Option Bytes
  pub compute_txid : Transaction → Bytes
  -- the order of public keys
  pub pubkey_le : Bytes → Bytes → Bool

pub data Error : Type 0 where
  secp256k1 p2wpkh invalid_argument miniscript inputs_index : Error

pub record Payout : Type 0 where
  pub offer : ℕ
  pub accept : ℕ

pub record TxInputInfo : Type 0 where
  pub outpoint : OutPoint
  pub max_witness_len : ℕ
  pub redeem_script : Bytes
  pub serial_id : ℕ

pub record PartyParams : Type 0 where
  pub fund_pubkey : Bytes
  pub change_script_pubkey : Bytes
  pub change_serial_id : ℕ
  pub payout_script_pubkey : Bytes
  pub payout_serial_id : ℕ
  pub inputs : List TxInputInfo
  pub input_amount : ℕ
  pub collateral : ℕ

pub record DlcTransactions : Type 0 where
  pub fund : Transaction
  pub cets : List Transaction
  pub refund : Transaction
  pub funding_script_pubkey : Bytes
