-- ===== src/Dlc/Util/Order.antt =====
-- What `order_by_serial_ids` returns.
use p2p_btc_lending.Prelude.{
  ℕ, ◌≤◌, ◌≡◌, refl, List, [], ◌∷◌, map, arith, leb, length, All, Bool-cases, inl, inr, leb→le,
  leb-false, subst,
}
use mathlib.Core.List.{Perm}
use mathlib.Core.List.Perm
use p2p_btc_lending.Dlc.Util.{insert_by_id, sort_by_id, zip_ids, drop_id, order_by_serial_ids}

module _ {ℓ} {A : Type ℓ} where
  -- The ids rise from the front.
  abbrev pub IsSorted : List (ℕ × A) → Type 0
  IsSorted [] = Unit
  IsSorted (x ∷ xs) = All (λ y. x.0 ≤ y.0) xs × IsSorted xs

  insert_by_id-All :
      (n : ℕ) (x : ℕ × A) (xs : List (ℕ × A))
      → n ≤ x.0
      → All (λ y. n ≤ y.0) xs
      → All (λ y. n ≤ y.0) (insert_by_id x xs)
  unfolding insert_by_id
  insert_by_id-All n x [] h hs = (h, tt)
  insert_by_id-All n x (y ∷ ys) h hs = elim (Bool-cases (leb x.0 y.0)) [
    | inl e ↦ rw e (h, hs)
    | inr e ↦ rw e (hs.0, insert_by_id-All n x ys h hs.1)
  ]

  All-le : (m n : ℕ) (xs : List (ℕ × A)) → m ≤ n → All (λ y. n ≤ y.0) xs → All (λ y. m ≤ y.0) xs
  All-le m n [] h hs = tt
  All-le m n (x ∷ xs) h hs = (omega (arith, hs.0), All-le m n xs h hs.1)

  insert_by_id-IsSorted :
      (x : ℕ × A) (xs : List (ℕ × A)) → IsSorted xs → IsSorted (insert_by_id x xs)
  unfolding insert_by_id
  insert_by_id-IsSorted x [] h = (tt, tt)
  insert_by_id-IsSorted x (y ∷ ys) h = elim (Bool-cases (leb x.0 y.0)) [
    | inl e ↦ rw e ((leb→le _ _ e, All-le x.0 y.0 ys (leb→le _ _ e) h.0), h)
    | inr e ↦ rw e (
      insert_by_id-All y.0 x ys (omega (arith, leb-false x.0 y.0 e)) h.0,
      insert_by_id-IsSorted x ys h.1,
    )
  ]

  insert_by_id-perm : (x : ℕ × A) (xs : List (ℕ × A)) → Perm (insert_by_id x xs) (x ∷ xs)
  unfolding insert_by_id
  insert_by_id-perm x [] = Perm.refl _
  insert_by_id-perm x (y ∷ ys) = elim (Bool-cases (leb x.0 y.0)) [
    | inl e ↦ rw e (Perm.refl _)
    | inr e ↦ rw e (Perm.trans (Perm.cons y (insert_by_id-perm x ys)) (Perm.swap x y ys))
  ]

  sort_by_id-IsSorted : (xs : List (ℕ × A)) → IsSorted (sort_by_id xs)
  unfolding sort_by_id
  sort_by_id-IsSorted [] = tt
  sort_by_id-IsSorted (x ∷ xs) = insert_by_id-IsSorted x (sort_by_id xs) (sort_by_id-IsSorted xs)

  sort_by_id-perm : (xs : List (ℕ × A)) → Perm (sort_by_id xs) xs
  unfolding sort_by_id
  sort_by_id-perm [] = Perm.refl _
  sort_by_id-perm (x ∷ xs) =
      Perm.trans (insert_by_id-perm x (sort_by_id xs)) (Perm.cons x (sort_by_id-perm xs))

  drop_id-zip_ids :
      (is : List ℕ) (xs : List A) → length xs ≡ length is → map drop_id (zip_ids is xs) ≡ xs
  drop_id-zip_ids [] [] h = refl
  drop_id-zip_ids [] (x ∷ xs) h = absurd (omega arith)
  drop_id-zip_ids (i ∷ is) [] h = absurd (omega arith)
  drop_id-zip_ids (i ∷ is) (x ∷ xs) h = rw (drop_id-zip_ids is xs (omega arith))

  -- For as many ids as items, the result holds the same items as often, and is what is left, without
  -- the ids, of a list of pairs that rises by its ids and is a rearrangement of the given pairs.
  pub order_by_serial_ids-perm :
      (xs : List A) (is : List ℕ)
      → length xs ≡ length is
      → Perm (order_by_serial_ids xs is) xs
        × ((ps : List (ℕ × A)) × IsSorted ps
            × Perm ps (zip_ids is xs)
            × (map drop_id ps ≡ order_by_serial_ids xs is))
  unfolding order_by_serial_ids
  order_by_serial_ids-perm xs is h = (
    subst (Perm _) (drop_id-zip_ids is xs h) (Perm.map drop_id (sort_by_id-perm (zip_ids is xs))),
    (
      sort_by_id (zip_ids is xs),
      sort_by_id-IsSorted (zip_ids is xs),
      sort_by_id-perm (zip_ids is xs),
      refl,
    ),
  )
