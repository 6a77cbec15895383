-- ===== src/Points/Total.antt =====
-- Giving points back never fails while the users of the records are there.
use lif_low_backend.Prelude.{
  map-ne-none, ℕ, ◌≡◌, ◌≢◌, refl, none, some, List, [], ◌∷◌, ltb, ◌==◌, All, Option-cases,
  Bool-cases, inl, inr,
}
use lif_low_backend.Schema.{User, Point, Table, put, ok, update}
use lif_low_backend.Points.{
  Sums, add_sums, add_point, collect, give_back, give_back_to, give_back_all, restore_points,
}
use lif_low_backend.Points.Laws.{give_back_to-refund}

-- Every user that a record names is there, as the foreign key of `points` promises.
abbrev pub HasUsers : Table User → List Point → Type 0
HasUsers t = All λ p. (k : ℕ) → p.user_id ≡ some k → t k ≢ none

abbrev HasKeys : Table User → List (ℕ × Sums) → Type 0
HasKeys t = All λ (e : ℕ × Sums). t e.0 ≢ none

add_sums-HasKeys :
    (t : Table User) (k inc ded : ℕ) (m : List (ℕ × Sums))
    → t k ≢ none
    → HasKeys t m
    → HasKeys t (add_sums k inc ded m)
add_sums-HasKeys t k inc ded [] there h = (there, tt)
add_sums-HasKeys t k inc ded ((j, s) ∷ m) there h = elim (Bool-cases (j == k)) [
  | inl e ↦ rw e (h.0, h.1)
  | inr e ↦ rw e (h.0, add_sums-HasKeys t k inc ded m there h.1)
]

collect-HasKeys :
    (t : Table User) (points : List Point) (m : List (ℕ × Sums))
    → HasUsers t points
    → HasKeys t m
    → HasKeys t (collect m points)
unfolding collect
collect-HasKeys t [] m users h = h
collect-HasKeys t (p ∷ points) m users h =
    collect-HasKeys t points (add_point p m) users.1 (one_point users.0)
  where
    one_point : ((k : ℕ) → p.user_id ≡ some k → t k ≢ none) → HasKeys t (add_point p m)
    one_point there = elim (Option-cases p.user_id) [
      | inl e ↦ rw e h
      | inr (k, e) ↦ rw e (add_sums-HasKeys t k _ _ m (there k e) h)
    ]

update_total :
    (k : ℕ) (f : User → User) (t : Table User)
    → t k ≢ none
    → (u : Table User) × (update k f t ≡ ok u)
update_total k f t there = elim (Option-cases (t k)) [
  | inl e ↦ absurd (there e)
  | inr (v, e) ↦ (put k (f v) t, rw e refl)
]

give_back_to_total :
    (k : ℕ) (s : Sums) (t : Table User)
    → t k ≢ none
    → (u : Table User) × (give_back_to k s t ≡ ok u)
unfolding give_back_to
give_back_to_total k s t there =
    let (u, e) = update_total k (give_back s) t there in
    elim (Bool-cases (ltb 0 s.deduction)) [
      | inl positive ↦ (u, rw positive e)
      | inr nothing ↦ elim (Bool-cases (s.deduction == s.increase)) [
        | inl even ↦ (t, rw (nothing, even) refl)
        | inr uneven ↦ (u, rw (nothing, uneven) e)
      ]
    ]

HasKeys-mono :
    (t u : Table User) (m : List (ℕ × Sums))
    → ((k : ℕ) → t k ≢ none → u k ≢ none)
    → HasKeys t m
    → HasKeys u m
HasKeys-mono t u [] keep h = tt
HasKeys-mono t u (e ∷ m) keep h = (keep e.0 h.0, HasKeys-mono t u m keep h.1)

give_back_all_total :
    (m : List (ℕ × Sums)) (t : Table User)
    → HasKeys t m
    → (u : Table User) × (give_back_all m t ≡ ok u)
unfolding give_back_all
give_back_all_total [] t h = (t, refl)
give_back_all_total ((k, s) ∷ m) t h =
    let (u, first) = give_back_to_total k s t h.0 in
    let keep : (j : ℕ) → t j ≢ none → u j ≢ none =
      λ j. map-ne-none _ (t j) (u j) (give_back_to-refund j k s t first) in
    let (v, rest) = give_back_all_total m u (HasKeys-mono t u m keep h.1) in (v, rw first rest)

-- Giving points back goes through where every user that the records name is in the table.
pub restore_points_total :
    (points : List Point) (t : Table User)
    → HasUsers t points
    → (u : Table User) × (restore_points points t ≡ ok u)
unfolding restore_points
restore_points_total points t h =
    give_back_all_total (collect [] points) t (collect-HasKeys t points [] h tt)
