-- ===== src/Trie/Ends.antt =====
-- The iterator over combinations stops, and gives combinations only.
use p2p_btc_lending.Prelude.{
  ℕ, zero, suc, ◌+◌, ◌-◌, ◌^◌, ◌≤◌, ◌<◌, ◌≡◌, ◌≢◌, inl, inr, refl, List, [], ◌∷◌, Option, none,
  some, length, ltb, All, ◌==◌, Bool-cases, false, Result, ok, >>=-ok, arith,
}
use p2p_btc_lending.Dlc.Types.{Error}
use p2p_btc_lending.Trie.{
  count_from, nth, find_cursor, advance, next, first_combination, combinations_from,
  combinations_after, combinations,
}
use p2p_btc_lending.Trie.Increasing.{
  Increasing, Increasing-count_from, Increasing-advance, length-count_from, length-advance,
  nth-room, find_cursor_lem, value, value-below, value-advance,
}

-- A choice of `k` of the numbers below `n`, in increasing order.
pub record IsCombination (n k : ℕ) (c : List ℕ) : Type 0 where
  pub increasing : Increasing 0 n c
  pub count : length c ≡ k

-- What `next` gives after a selector.
abbrev Follows : ℕ → ℕ → List ℕ → Option (List ℕ) → Type 0
Follows n k xs none = Unit
Follows n k xs (some s) = IsCombination n k s × (value (n + 1) xs < value (n + 1) s)

room :
    (n x : ℕ) (xs : List ℕ)
    → Increasing 0 n (x ∷ xs)
    → nth (advance (find_cursor n (length xs) (x ∷ xs) (length xs)) (x ∷ xs)) 0
      ≢ n - suc (length xs) + 1
    → nth (x ∷ xs) (find_cursor n (length xs) (x ∷ xs) (length xs)) + 1 + length (x ∷ xs)
      ≤ n + find_cursor n (length xs) (x ∷ xs) (length xs)
unfolding advance count_from
room n x xs h moved =
    let (small, kind) = find_cursor_lem n (length xs) (x ∷ xs) (length xs) in
    elim kind [
      | inl first ↦
          let moved' : x + 1 ≢ n - suc (length xs) + 1 = rw first at moved in
          rw first (omega (arith, moved', nth-room 0 n (x ∷ xs) 0 h (omega arith)))
      | inr can ↦ omega (
        arith,
        can,
        small,
        nth-room 0 n (x ∷ xs) (find_cursor n (length xs) (x ∷ xs) (length xs)) h
            (omega (arith, small)),
      )
    ]

next-Follows :
    (n k : ℕ) (xs : List ℕ)
    → 0 < k
    → IsCombination n k xs
    → (o : Option (List ℕ)) × (next n xs ≡ ok o) × Follows n k xs o
unfolding next
next-Follows n k [] pos h = absurd (omega (arith, h.count))
next-Follows n k (x ∷ xs) pos h =
    let c = find_cursor n (length xs) (x ∷ xs) (length xs) in
    let s = advance c (x ∷ xs) in
    elim (Bool-cases (nth s 0 == n - suc (length xs) + 1)) [
      | inl e ↦ (none, rw e refl, tt)
      | inr e ↦ (
        some s,
        rw e refl,
        (
          record {
            increasing =
                Increasing-advance 0 n c (x ∷ xs) h.increasing
                  (omega (arith, (find_cursor_lem n (length xs) (x ∷ xs) (length xs)).0))
                  (room n x xs h.increasing (λ p. ground (arith, e, p)));
            count = omega (arith, length-advance c (x ∷ xs), h.count);
          },
          value-advance 0 n c (x ∷ xs) h.increasing
              (omega (arith, (find_cursor_lem n (length xs) (x ∷ xs) (length xs)).0)),
        ),
      )
    ]

-- The combinations from a selector on.
abbrev Listed : ℕ → ℕ → Result Error (Option (List (List ℕ))) → Type 0
Listed n k r = (cs : List (List ℕ)) × (r ≡ ok (some cs)) × All (IsCombination n k) cs

combinations_after-Listed :
    (n k : ℕ) (more : List ℕ → Result Error (Option (List (List ℕ)))) (xs : List ℕ)
    (o : Option (List ℕ))
    → IsCombination n k xs
    → Follows n k xs o
    → ((s : List ℕ)
        → IsCombination n k s
        → value (n + 1) xs < value (n + 1) s
        → Listed n k (more s))
    → Listed n k (combinations_after more xs o)
combinations_after-Listed n k more xs none h f rest = (xs ∷ [], refl, (h, tt))
combinations_after-Listed n k more xs (some s) h (f, greater) rest =
    let (cs, given, all) = rest s f greater in (xs ∷ cs, >>=-ok _ given refl, (h, all))

combinations_from-Listed :
    (fuel n k : ℕ) (xs : List ℕ)
    → 0 < k
    → IsCombination n k xs
    → (n + 1) ^ k ≤ value (n + 1) xs + fuel
    → Listed n k (combinations_from fuel n xs)
unfolding combinations_from
combinations_from-Listed zero n k xs pos h enough = absurd (omega (arith, below, enough))
  where
    below : value (n + 1) xs < (n + 1) ^ k
    below = rw h.count at (value-below 0 n xs h.increasing)
combinations_from-Listed (suc fuel) n k xs pos h enough =
    let (o, given, follows) = next-Follows n k xs pos h in
    let (cs, listed, all) =
      combinations_after-Listed n k (λ s. combinations_from fuel n s) xs o h follows
        (λ s hs greater.
          combinations_from-Listed fuel n k s pos hs (omega (arith, greater, enough))) in
    (cs, >>=-ok _ given listed, all)

-- For a number of selected elements between one and all, the iterator ends, and everything that it
-- gives is a choice of so many indexes below the number of elements, in increasing order.
pub combinations-IsCombination :
    (n k : ℕ)
    → 0 < k
    → k ≤ n
    → (cs : List (List ℕ)) × (combinations n k ≡ ok (some cs)) × All (IsCombination n k) cs
unfolding combinations first_combination
combinations-IsCombination n k pos small =
    let start : IsCombination n k (count_from 0 k) = record {
      increasing = Increasing-count_from 0 n 0 k (omega arith) (omega arith);
      count = length-count_from 0 k;
    } in
    let (cs, listed, all) =
      combinations_from-Listed ((n + 1) ^ k) n k (count_from 0 k) pos start (omega arith) in
    let fits : ltb n k ≡ false = ground arith in (cs, rw fits listed, all)
