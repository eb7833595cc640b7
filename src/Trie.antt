-- ===== src/Trie.antt =====
-- The iterator over combinations of oracles: stable-borrow-cli/crates/dlc-trie/src/
-- combination_iterator.rs. Its state is the selector, the indexes that are chosen.
pub mod Increasing
pub mod Ends
pub mod Tests
use p2p_btc_lending.Prelude.{
  ℕ, zero, suc, ◌+◌, ◌-◌, ◌^◌, List, [], ◌∷◌, Option, some, none, ltb, ◌==◌, ◌&&◌, Bool, true,
  false, Result, ok, panic, assert, not, length, if◌then◌else◌, ◌>>=◌, ◌>>◌,
}
use p2p_btc_lending.Dlc.Types.{Error}

-- `n` numbers from `x` on
unfoldable pub count_from : ℕ → ℕ → List ℕ
count_from x zero = []
count_from x (suc n) = x ∷ count_from (x + 1) n

-- `selector[i]`, for an index in range
abbrev pub nth : List ℕ → ℕ → ℕ
nth [] i = 0
nth (x ∷ xs) zero = x
nth (x ∷ xs) (suc i) = nth xs i

-- The loop that looks for the last index that can still move; `k` is `last_index`.
unfoldable pub find_cursor : ℕ → ℕ → List ℕ → ℕ → ℕ
find_cursor n k selector zero = 0
find_cursor n k selector (suc i) =
    let before = find_cursor n k selector i in
    if nth selector (suc i) == n - 1 - (k - suc i) then before else suc i

-- The index moves, and those behind it follow it closely.
unfoldable pub advance : ℕ → List ℕ → List ℕ
advance i [] = []
advance zero (x ∷ xs) = count_from (x + 1) (suc (length xs))
advance (suc i) (x ∷ xs) = x ∷ advance i xs

-- `CombinationIterator::new`
unfoldable pub first_combination : ℕ → ℕ → Result Error (List ℕ)
first_combination nb_elements nb_selected = do
  assert (not (ltb nb_elements nb_selected))
  ok (count_from 0 nb_selected)

-- `next` of an iterator that has started. The last index of an empty selector overflows.
unfoldable pub next : ℕ → List ℕ → Result Error (Option (List ℕ))
next nb_elements [] = panic
next nb_elements (x ∷ xs) =
    let selector = advance (find_cursor nb_elements (length xs) (x ∷ xs) (length xs)) (x ∷ xs) in
    ok (if nth selector 0 == nb_elements - suc (length xs) + 1 then none else some selector)

abbrev with_first : List ℕ → Option (List (List ℕ)) → Option (List (List ℕ))
with_first selector none = none
with_first selector (some rest) = some (selector ∷ rest)

-- What is left after `selector`, when `next` gave `following`.
abbrev pub combinations_after :
    (List ℕ → Result Error (Option (List (List ℕ))))
    → List ℕ
    → Option (List ℕ)
    → Result Error (Option (List (List ℕ)))
combinations_after more selector none = ok (some (selector ∷ []))
combinations_after more selector (some s) = do rest ← more s; ok (with_first selector rest)

-- The combinations from `selector` on; `none` when the fuel ran out.
unfoldable pub combinations_from : ℕ → ℕ → List ℕ → Result Error (Option (List (List ℕ)))
combinations_from zero nb_elements selector = ok none
combinations_from (suc fuel) nb_elements selector = do
  following ← next nb_elements selector
  combinations_after (λ s. combinations_from fuel nb_elements s) selector following

-- `CombinationIterator::new(nb_elements, nb_selected).collect()`
unfoldable pub combinations : ℕ → ℕ → Result Error (Option (List (List ℕ)))
combinations nb_elements nb_selected = do
  selector ← first_combination nb_elements nb_selected
  combinations_from ((nb_elements + 1) ^ nb_selected) nb_elements selector
