-- ===== src/Points/Spent.antt =====
-- What step 2.6 of `confirmPayment` writes, as the user and as the point records.
use lif_low_backend.Prelude.{
  sub_zero, add_zero, ℕ, zero, suc, pos, ◌+ℤ◌, ◌-ℤ◌, ◌≡◌, refl, List, arith, ◌==◌, ==_iff,
  if◌then◌else◌, is_some_of, filter, map_same, sym,
}
use lif_low_backend.Schema.{User, Point}
use lif_low_backend.Points.{spend, spend_points}
use lif_low_backend.Points.Laws.{sums_of, plus}

spend_zero : (u : User) → spend 0 u ≡ u
spend_zero u = λ i. record u {
  available_points = map_same (λ z. z -ℤ pos 0) u.available_points sub_zero i;
  total_used_points = map_same (λ z. z +ℤ pos 0) u.total_used_points add_zero i;
}

-- Spending nothing is no special case for the user.
pub spend_points-spend :
    (user_id group used : ℕ) (u : User) (points : List Point)
    → (spend_points user_id group used u points).0 ≡ spend used u
unfolding spend_points
spend_points-spend user_id group zero u points = sym (spend_zero u)
spend_points-spend user_id group (suc n) u points = ground arith

-- The record of what was spent is found again among the records of the order group.
pub sums-spend_points :
    (k user_id group used : ℕ) (u : User) (points : List Point)
    → sums_of k (
        filter
          (λ p. is_some_of group p.order_group_number)
          (spend_points user_id group used u points).1)
      ≡ plus
          (if user_id == k
            then record { increase = 0; deduction = used }
            else record { increase = 0; deduction = 0 })
          (sums_of k (filter (λ p. is_some_of group p.order_group_number) points))
unfolding spend_points
sums-spend_points k user_id group zero u points = ground arith
sums-spend_points k user_id group (suc n) u points = ground (arith, (==_iff group group).1 refl)
