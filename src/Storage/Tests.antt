-- ===== src/Storage/Tests.antt =====
-- A database that is an association list, and the laws of the store at small inputs.
pub mod Updates
use p2p_btc_lending.Prelude.{
  ℕ, ◌≡◌, refl, ap, Bool, true, false, List, [], ◌∷◌, Option, some, none, if◌then◌else◌, bytes_eq,
  bytes_eq_refl, bytes_eq→eq, All, Bool-cases, inl, inr, arith,
}
use mathlib.Core.List.{Memᴰ}
use mathlib.Core.List.Memᴰ
use p2p_btc_lending.Dlc.Types.{Bytes}
use p2p_btc_lending.Storage.Interface.{Sled}

abbrev pub Entries : Type 0
Entries = List (Bytes × Bytes)

abbrev pub find : Entries → Bytes → Option Bytes
find [] j = none
find ((k, v) ∷ t) j = let rest = find t j in if bytes_eq k j then some v else rest

abbrev pub without : Entries → Bytes → Entries
without [] j = []
without ((k, v) ∷ t) j = let rest = without t j in if bytes_eq j k then rest else (k, v) ∷ rest

-- Of two entries with one key, the first counts.
abbrev pub live : Entries → Entries
live [] = []
live ((k, v) ∷ t) = (k, v) ∷ without (live t) k

bytes_eq_sym : (k j : Bytes) → bytes_eq k j ≡ bytes_eq j k
bytes_eq_sym k j =
    ground (arith, bytes_eq→eq k j, bytes_eq→eq j k, bytes_eq_refl k, bytes_eq_refl j)

pub find-without :
    (t : Entries) (k j : Bytes) → find (without t k) j ≡ (if bytes_eq k j then none else find t j)
find-without [] k j = ground arith
find-without ((i, v) ∷ t) k j =
    ground (arith, find-without t k j, bytes_eq→eq k i, bytes_eq→eq k j, bytes_eq_sym i k)

without-All :
    (P : Bytes × Bytes → Type 0) (t : Entries) (k : Bytes)
    → All P t
    → All (λ e. (bytes_eq k e.0 ≡ false) × P e) (without t k)
without-All P [] k h = tt
without-All P ((i, v) ∷ t) k h = elim (Bool-cases (bytes_eq k i)) [
  | inl e ↦ rw e (without-All P t k h.1)
  | inr e ↦ rw e ((e, h.0), without-All P t k h.1)
]

All-map :
    (P Q : Bytes × Bytes → Type 0) (t : Entries)
    → ((e : Bytes × Bytes) → P e → Q e)
    → All P t
    → All Q t
All-map P Q [] f h = tt
All-map P Q (e ∷ t) f h = (f e h.0, All-map P Q t f h.1)

pub live_sound : (t : Entries) → All (λ e. find t e.0 ≡ some e.1) (live t)
live_sound [] = tt
live_sound ((k, v) ∷ t) = (
  rw (bytes_eq_refl k) refl,
  All-map _ _ (without (live t) k) (λ e h. rw h.0 h.1) (without-All _ (live t) k (live_sound t)),
)

without-Mem :
    (t : Entries) (k : Bytes) (e : Bytes × Bytes)
    → bytes_eq k e.0 ≡ false
    → Memᴰ e t
    → Memᴰ e (without t k)
without-Mem [] k e h m = absurd (Memᴰ.not-nil m)
without-Mem ((i, v) ∷ t) k e h m = elim (Bool-cases (bytes_eq k i)) [
  | inl c ↦ rw c (elim (Memᴰ.cases_cons m) [
    | inl q ↦ absurd (cc (ap (λ x. x.0) q))
    | inr n ↦ without-Mem t k e h n
  ])
  | inr c ↦
      rw c (elim (Memᴰ.cases_cons m) [
        | inl q ↦ Memᴰ.head q
        | inr n ↦ Memᴰ.tail (without-Mem t k e h n)
      ])
]

pub live_complete : (t : Entries) (k v : Bytes) → find t k ≡ some v → Memᴰ (k, v) (live t)
live_complete [] k v h = absurd (cc)
live_complete ((i, w) ∷ t) k v f = elim (Bool-cases (bytes_eq i k)) [
  | inl e ↦ Memᴰ.head (let g : some w ≡ some v = (rw e at f) in cc (bytes_eq→eq i k e, g))
  | inr e ↦ Memᴰ.tail (without-Mem (live t) i (k, v) e (live_complete t k v (rw e at f)))
]

abbrev pub sled_test : Sled
sled_test = record {
  Tree = Entries;
  get = find;
  insert = λ t k v. (k, v) ∷ t;
  remove = without;
  iter = live;
  get-insert = λ t k v j. refl;
  get-remove = find-without;
  iter_sound = live_sound;
  iter_complete = live_complete;
}
