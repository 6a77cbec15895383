-- ===== src/Points/Laws.antt =====
-- The loops that give points back, against the sums over the point records of a payment.
use mathlib.Core.Option
use lif_low_backend.Prelude.{
  sub_zero, ℕ, zero, suc, ◌+◌, ℤ, pos, ◌+ℤ◌, ◌-ℤ◌, int_laws, ◌≡◌, refl, inl, inr, Option, none,
  some, List, [], ◌∷◌, arith, ltb, ◌==◌, if◌then◌else◌, get_or, is_some_of, sum_by, Option-cases,
  Bool-cases, sym, ◌∙◌, ap, ==_iff,
}
use lif_low_backend.Schema.{User, Point, Table, ok, update, >>=-eq-ok, ok-injective, update-eq-ok}
use lif_low_backend.Points.{
  Sums, add_sums, add_point, collect, give_back, give_back_to, give_back_all, restore_points,
}

-- What one record adds to, and takes from, the points of user `k`, and all records together.
abbrev pub increase_of : ℕ → Point → ℕ
increase_of k p = if is_some_of k p.user_id then get_or p.available_points_increase 0 else 0

abbrev pub deduction_of : ℕ → Point → ℕ
deduction_of k p = if is_some_of k p.user_id then get_or p.available_points_deduction 0 else 0

abbrev pub sums_of : ℕ → List Point → Sums
sums_of k points = record {
  increase = sum_by (increase_of k) points;
  deduction = sum_by (deduction_of k) points;
}

abbrev pub plus : Sums → Sums → Sums
plus s r = record { increase = s.increase + r.increase; deduction = s.deduction + r.deduction }

abbrev entry : ℕ → ℕ × Sums → Sums
entry k e = if e.0 == k then e.1 else record { increase = 0; deduction = 0 }

-- What the entries of a `Map` hold for one key.
abbrev entries : ℕ → List (ℕ × Sums) → Sums
entries k [] = record { increase = 0; deduction = 0 }
entries k (e ∷ m) = plus (entry k e) (entries k m)

entries-add_sums :
    (k j inc ded : ℕ) (m : List (ℕ × Sums))
    → entries k (add_sums j inc ded m)
      ≡ plus (entries k m) (entry k (j, record { increase = inc; deduction = ded }))
entries-add_sums k j inc ded [] = ground arith
entries-add_sums k j inc ded (e ∷ m) = ground (arith, entries-add_sums k j inc ded m)

entries-add_point :
    (k : ℕ) (p : Point) (m : List (ℕ × Sums))
    → entries k (add_point p m) ≡ plus (entries k m) (sums_of k (p ∷ []))
entries-add_point k p m = elim (Option-cases p.user_id) [
  | inl e ↦ ground arith
  | inr (j, e) ↦ ground (
    arith,
    entries-add_sums k j (get_or p.available_points_increase 0)
        (get_or p.available_points_deduction 0) m,
  )
]

entries-collect :
    (k : ℕ) (points : List Point) (m : List (ℕ × Sums))
    → entries k (collect m points) ≡ plus (entries k m) (sums_of k points)
unfolding collect
entries-collect k [] m = ground arith
entries-collect k (p ∷ points) m =
    ground (arith, entries-add_point k p m, entries-collect k points (add_point p m))

-- Giving back, without the tests that leave an unchanged field out.
abbrev pub refund : Sums → User → User
refund s u = record u {
  available_points = Option.map (λ z. z +ℤ (pos s.deduction -ℤ pos s.increase)) u.available_points;
  total_used_points = Option.map (λ z. z -ℤ pos s.deduction) u.total_used_points;
}

add_zero_net : (z : ℤ) (a b : ℕ) → a ≡ b → z +ℤ (pos a -ℤ pos b) ≡ z
add_zero_net z a b h = omega int_laws

add_net :
    (z : ℤ) (a b c d : ℕ)
    → z +ℤ (pos a -ℤ pos b) +ℤ (pos c -ℤ pos d) ≡ z +ℤ (pos (a + c) -ℤ pos (b + d))
add_net z a b c d = omega int_laws

sub_sub : (z : ℤ) (a b : ℕ) → z -ℤ pos a -ℤ pos b ≡ z -ℤ pos (a + b)
sub_sub z a b = omega int_laws

give_back-available :
    (i d : ℕ) (o : Option ℤ)
    → (if d == i then o else Option.map (λ z. z +ℤ (pos d -ℤ pos i)) o)
      ≡ Option.map (λ z. z +ℤ (pos d -ℤ pos i)) o
give_back-available i d none = ground arith
give_back-available i d (some z) = ground (arith, add_zero_net z d i)

give_back-used :
    (d : ℕ) (o : Option ℤ)
    → (if ltb 0 d then Option.map (λ z. z -ℤ pos d) o else o) ≡ Option.map (λ z. z -ℤ pos d) o
give_back-used d none = ground arith
give_back-used zero (some z) = ground (arith, sub_zero z)
give_back-used (suc d) (some z) = ground arith

give_back-eq-refund : (s : Sums) (u : User) → give_back s u ≡ refund s u
unfolding give_back
give_back-eq-refund s u = λ i. record u {
  available_points = give_back-available s.increase s.deduction u.available_points i;
  total_used_points = give_back-used s.deduction u.total_used_points i;
}

abbrev zero_sums : Sums
zero_sums = record { increase = 0; deduction = 0 }

refund_even :
    (s : Sums) (o : Option User) → s.deduction ≡ 0 → s.increase ≡ 0 → Option.map (refund s) o ≡ o
refund_even s none d i = refl
refund_even s (some u) d i = λ j. some (record u {
  available_points = available u.available_points j;
  total_used_points = total u.total_used_points j;
})
  where
    available : (o : Option ℤ) → Option.map (λ z. z +ℤ (pos s.deduction -ℤ pos s.increase)) o ≡ o
    available none = refl
    available (some z) = ap some (add_zero_net z s.deduction s.increase (d ∙ sym i))

    total : (o : Option ℤ) → Option.map (λ z. z -ℤ pos s.deduction) o ≡ o
    total none = refl
    total (some z) = rw d (ap some (sub_zero z))

refund-plus :
    (s r : Sums) (o : Option User)
    → Option.map (refund r) (Option.map (refund s) o) ≡ Option.map (refund (plus s r)) o
refund-plus s r none = refl
refund-plus s r (some u) = λ j. some (record u {
  available_points = available u.available_points j;
  total_used_points = total u.total_used_points j;
})
  where
    available :
        (o : Option ℤ)
        → Option.map
            (λ z. z +ℤ (pos r.deduction -ℤ pos r.increase))
            (Option.map (λ z. z +ℤ (pos s.deduction -ℤ pos s.increase)) o)
          ≡ Option.map
              (λ z. z +ℤ (pos (s.deduction + r.deduction) -ℤ pos (s.increase + r.increase)))
              o
    available none = refl
    available (some z) = ap some (add_net z s.deduction s.increase r.deduction r.increase)

    total :
        (o : Option ℤ)
        → Option.map (λ z. z -ℤ pos r.deduction) (Option.map (λ z. z -ℤ pos s.deduction) o)
          ≡ Option.map (λ z. z -ℤ pos (s.deduction + r.deduction)) o
    total none = refl
    total (some z) = ap some (sub_sub z s.deduction r.deduction)

map-give_back : (s : Sums) (o : Option User) → Option.map (give_back s) o ≡ Option.map (refund s) o
map-give_back s none = refl
map-give_back s (some u) = ap some (give_back-eq-refund s u)

written-refund :
    (k j : ℕ) (s : Sums) (t : Table User) {t' : Table User}
    → update j (give_back s) t ≡ ok t'
    → t' k ≡ Option.map (refund (entry k (j, s))) (t k)
written-refund k j s t h = ground (
  arith,
  update-eq-ok j (give_back s) t h k,
  map-give_back s (t k),
  refund_even zero_sums (t k) refl refl,
  ==_iff j k,
)

untouched-refund :
    (k j : ℕ) (s : Sums) (t : Table User)
    → s.deduction ≡ 0
    → s.increase ≡ 0
    → t k ≡ Option.map (refund (entry k (j, s))) (t k)
untouched-refund k j s t d i = elim (Bool-cases (j == k)) [
  | inl e ↦ rw e (sym (refund_even s (t k) d i))
  | inr e ↦ rw e (sym (refund_even zero_sums (t k) refl refl))
]

-- Every branch of one round amounts to `refund` for the user of the entry.
pub give_back_to-refund :
    (k j : ℕ) (s : Sums) (t : Table User) {t' : Table User}
    → give_back_to j s t ≡ ok t'
    → t' k ≡ Option.map (refund (entry k (j, s))) (t k)
unfolding give_back_to
give_back_to-refund k j s t h = elim (Bool-cases (ltb 0 s.deduction)) [
  | inl e ↦ written-refund k j s t (rw e at h)
  | inr none_spent ↦ elim (Bool-cases (s.deduction == s.increase)) [
    | inl even ↦
        rw (← ok-injective (rw even at (rw none_spent at h)))
          (untouched-refund k j s t (ground arith) (ground arith))
    | inr uneven ↦ written-refund k j s t (rw uneven at (rw none_spent at h))
  ]
]

give_back_all-refund :
    (k : ℕ) (m : List (ℕ × Sums)) (t : Table User) {t' : Table User}
    → give_back_all m t ≡ ok t'
    → t' k ≡ Option.map (refund (entries k m)) (t k)
unfolding give_back_all
give_back_all-refund k [] t h = rw (← ok-injective h) (sym (refund_even zero_sums (t k) refl refl))
give_back_all-refund k ((j, s) ∷ m) t h =
    let (u, first, rest) = >>=-eq-ok (give_back_to j s t) (give_back_all m) h in
    give_back_all-refund k m u rest
    ∙ ap (Option.map (refund (entries k m))) (give_back_to-refund k j s t first)
    ∙ refund-plus (entry k (j, s)) (entries k m) (t k)

-- Giving back reverses the point records exactly: each user's balance goes up by the deductions
-- less the increases of that user's records, the points used go down by the deductions, and users
-- without a record keep theirs, in whatever order and however often the records name a user.
pub restore_points_lem :
    (k : ℕ) (points : List Point) (t : Table User) {t' : Table User}
    → restore_points points t ≡ ok t'
    → t' k ≡ Option.map (refund (sums_of k points)) (t k)
unfolding restore_points
restore_points_lem k points t h =
    give_back_all-refund k (collect [] points) t h
    ∙ ap (λ s. Option.map (refund s) (t k)) (collected k points)
  where
    collected : (k : ℕ) (points : List Point) → entries k (collect [] points) ≡ sums_of k points
    collected k points = entries-collect k points [] ∙ ground arith
