-- ===== src/Trie/Tests.antt =====
-- Three of four oracles.
use p2p_btc_lending.Prelude.{ℕ, ◌≡◌, List, All, some, ok, refl, [], ◌∷◌, arith}
use p2p_btc_lending.Trie.{
  combinations, combinations_from, first_combination, next, advance, find_cursor, count_from,
}
use p2p_btc_lending.Trie.Ends.{IsCombination, combinations-IsCombination}

combinations-IsCombination_example :
    (cs : List (List ℕ)) × (combinations 4 3 ≡ ok (some cs)) × All (IsCombination 4 3) cs
combinations-IsCombination_example = combinations-IsCombination 4 3 (omega arith) (omega arith)

combinations_four :
    combinations 4 3
    ≡ ok (some ((0 ∷ 1 ∷ 2 ∷ []) ∷ (0 ∷ 1 ∷ 3 ∷ []) ∷ (0 ∷ 2 ∷ 3 ∷ []) ∷ (1 ∷ 2 ∷ 3 ∷ []) ∷ []))
unfolding combinations combinations_from first_combination next advance find_cursor count_from
combinations_four = refl
