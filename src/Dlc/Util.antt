-- ===== src/Dlc/Util.antt =====
-- stable-borrow-cli/crates/dlc/src/util.rs: fees, the order of inputs and outputs, dust.
pub mod Order
use p2p_btc_lending.Prelude.{
  ℕ, ◌+◌, ◌*◌, ◌/◌, List, [], ◌∷◌, map, Option, none, some, leb, ltb, ◌==◌, if◌then◌else◌, bytes_eq,
  keep, Result, ok, err, unwrap,
}
use p2p_btc_lending.Dlc.Types.{Bytes, TxOut, Transaction, Bitcoin, Error, invalid_argument}
use p2p_btc_lending.Dlc.Checked.{checked_mul}

abbrev pub disable_locktime : ℕ
disable_locktime = 0xffffffff

abbrev pub enable_locktime : ℕ
enable_locktime = 0xfffffffe

-- `f64::ceil(weight / 4.0)`, which is exact for weights below 2 ^ 53.
unfoldable pub weight_to_fee : ℕ → ℕ → Result Error ℕ
weight_to_fee weight fee_rate = checked_mul ((weight + 3) / 4) fee_rate

unfoldable pub get_common_fee : ℕ → Result Error ℕ
unfolding weight_to_fee
get_common_fee fee_rate = weight_to_fee (400 + 500) fee_rate

-- A redeem script that is no witness program of version 0 makes the code panic.
unfoldable pub redeem_script_to_script_sig : Bitcoin → Bytes → Result Error Bytes
redeem_script_to_script_sig b [] = ok []
redeem_script_to_script_sig b (x ∷ xs) = unwrap (b.witness_program (x ∷ xs))

-- `sort_by` is stable: an element goes before those that are not smaller than it.
unfoldable pub insert_by_id {ℓ} : {A : Type ℓ} → ℕ × A → List (ℕ × A) → List (ℕ × A)
insert_by_id x [] = x ∷ []
insert_by_id x (y ∷ ys) =
    let rest = insert_by_id x ys in if leb x.0 y.0 then x ∷ y ∷ ys else y ∷ rest

unfoldable pub sort_by_id {ℓ} : {A : Type ℓ} → List (ℕ × A) → List (ℕ × A)
unfolding insert_by_id
sort_by_id [] = []
sort_by_id (x ∷ xs) = insert_by_id x (sort_by_id xs)

-- `ids.iter().zip(inputs)`
abbrev pub zip_ids {ℓ} : {A : Type ℓ} → List ℕ → List A → List (ℕ × A)
zip_ids [] xs = []
zip_ids (i ∷ is) [] = []
zip_ids (i ∷ is) (x ∷ xs) = (i, x) ∷ zip_ids is xs

abbrev pub drop_id {ℓ} : {A : Type ℓ} → ℕ × A → A
drop_id (i, x) = x

unfoldable pub order_by_serial_ids {ℓ} : {A : Type ℓ} → List A → List ℕ → List A
unfolding sort_by_id
order_by_serial_ids inputs ids = map drop_id (sort_by_id (zip_ids ids inputs))

-- The index and the output of the first output with the script, counted from `i`.
unfoldable pub find_output : Bytes → ℕ → List TxOut → Option (ℕ × TxOut)
find_output script i [] = none
find_output script i (o ∷ os) =
    let rest = find_output script (i + 1) os in
    if bytes_eq o.script_pubkey script then some (i, o) else rest

unfoldable pub get_output_for_script_pubkey : Transaction → Bytes → Option (ℕ × TxOut)
unfolding find_output
get_output_for_script_pubkey tx script = find_output script 0 tx.output

unfoldable pub discard_dust : List TxOut → ℕ → List TxOut
discard_dust outs dust_limit = keep (λ o. leb dust_limit o.value) outs

unfoldable pub get_sequence : ℕ → ℕ
get_sequence lock_time = if lock_time == 0 then disable_locktime else enable_locktime

unfoldable pub validate_fee_rate : ℕ → Result Error (Unit {0})
validate_fee_rate fee_rate_per_vb =
    if ltb (25 * 250) fee_rate_per_vb then err invalid_argument else ok tt
