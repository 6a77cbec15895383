-- ===== src/Points.antt =====
-- The points of a user: what a confirmed payment spends (step 2.6 of `confirmPayment` in
-- src/modules/payment/payment.service.ts) and earns (`issueAfterPayment` in
-- src/modules/point/point.service.ts), and what a cancellation or a return gives back (step 5 of
-- `cancelPayment`, 6.5 of `returnPayment`).
pub mod Laws
pub mod Spent
pub mod Total
use mathlib.Core.Option
use lif_low_backend.Prelude.{
  ℕ, ◌+◌, pos, ◌+ℤ◌, ◌-ℤ◌, Option, none, some, List, [], ◌∷◌, ltb, ◌==◌, if◌then◌else◌, get_or,
}
use lif_low_backend.Schema.{User, Point, used_points, Table, Result, ok, ◌>>=◌, update}

-- The record of step 2.6.
abbrev pub used_point : ℕ → ℕ → ℕ → User → Point
used_point user_id group used u = record {
  user_id = some user_id;
  order_group_number = some group;
  points_type = used_points;
  membership_level = none;
  available_points_increase = none;
  available_points_deduction = some used;
  available_points_balance = some (get_or u.available_points (pos 0) -ℤ pos used);
}

abbrev pub spend : ℕ → User → User
spend used u = record u {
  available_points = Option.map (λ z. z -ℤ pos used) u.available_points;
  total_used_points = Option.map (λ z. z +ℤ pos used) u.total_used_points;
}

-- Step 2.6, on the points and on the user of the payment.
unfoldable pub spend_points : ℕ → ℕ → ℕ → User → List Point → User × List Point
spend_points user_id group used u points =
    if ltb 0 used then (spend used u, used_point user_id group used u ∷ points) else (u, points)

-- The sums of increases and of deductions that step 5 collects for each user.
pub record Sums : Type 0 where
  pub increase : ℕ
  pub deduction : ℕ

abbrev pub add_sums : ℕ → ℕ → ℕ → List (ℕ × Sums) → List (ℕ × Sums)
add_sums k inc ded [] = (k, record { increase = inc; deduction = ded }) ∷ []
add_sums k inc ded ((j, s) ∷ rest) =
    if j == k
    then (j, record { increase = s.increase + inc; deduction = s.deduction + ded }) ∷ rest
    else (j, s) ∷ add_sums k inc ded rest

abbrev pub add_point : Point → List (ℕ × Sums) → List (ℕ × Sums)
add_point p sums = elim p.user_id [
  | none ↦ sums
  | some k ↦
      add_sums k (get_or p.available_points_increase 0) (get_or p.available_points_deduction 0) sums
]

-- The first loop of step 5.
unfoldable pub collect : List (ℕ × Sums) → List Point → List (ℕ × Sums)
collect sums [] = sums
collect sums (p ∷ points) = collect (add_point p sums) points

-- The `data` of the update, where a field that does not change is left out.
unfoldable pub give_back : Sums → User → User
give_back s u =
    let net = pos s.deduction -ℤ pos s.increase in
    record u {
      available_points =
          if s.deduction == s.increase
          then u.available_points
          else Option.map (λ z. z +ℤ net) u.available_points;
      total_used_points =
          if ltb 0 s.deduction
          then Option.map (λ z. z -ℤ pos s.deduction) u.total_used_points
          else u.total_used_points;
    }

-- No update is made where neither field changes: `netRestore` is 0 and `deduction` is 0.
unfoldable pub give_back_to : ℕ → Sums → Table User → Result (Table User)
give_back_to k s t =
    if ltb 0 s.deduction
    then update k (give_back s) t
    else if s.deduction == s.increase
    then ok t
    else update k (give_back s) t

-- The second loop of step 5.
unfoldable pub give_back_all : List (ℕ × Sums) → Table User → Result (Table User)
give_back_all [] t = ok t
give_back_all ((k, s) ∷ sums) t = give_back_to k s t >>= give_back_all sums

unfoldable pub restore_points : List Point → Table User → Result (Table User)
restore_points points t = give_back_all (collect [] points) t
