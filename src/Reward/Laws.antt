-- ===== src/Reward/Laws.antt =====
-- How much a payment earns, and that the record and the balance agree.
use lif_low_backend.Prelude.{
  ℕ, ◌+◌, ◌*◌, ◌≤◌, ◌<◌, pos, ◌+ℤ◌, String, ◌≡◌, inl, inr, Option, none, some, List, ◌∷◌, arith,
  ◌==◌, Bool-cases, get_or, if◌then◌else◌,
}
use lif_low_backend.Schema.{User, OrderGroup, Point, Table, put, ok}
use lif_low_backend.Reward.{
  rate_of_level, reward_rate, points_increase, reward_point, issue_after_payment,
}

rate_of_level-le : (level : String) → rate_of_level level ≤ 30
unfolding rate_of_level
rate_of_level-le level = ground arith

pub reward_rate-le : (level : Option String) → reward_rate level ≤ 30
reward_rate-le none = omega arith
reward_rate-le (some level) = rate_of_level-le level

-- The reward is the whole part of the rate's share of the amount: it is never more, less than one
-- point is lost, and it is at most 3 percent of the amount. A user without a level earns nothing.
pub points_increase_bounds :
    (amount : ℕ) (level : Option String)
    → (points_increase amount level * 1000 ≤ amount * reward_rate level)
      × (amount * reward_rate level < points_increase amount level * 1000 + 1000)
      × (points_increase amount level * 100 ≤ amount * 3)
      × (points_increase amount none ≡ 0)
unfolding points_increase
points_increase_bounds amount level = grind (arith, reward_rate-le level)

-- A reward for a user and an order group that are there always goes through. It raises the
-- balance of that user by the reward, leaves every other user alone, and adds one record with the
-- reward and the new balance; with no reward, nothing changes.
pub issue_after_payment_lem :
    (user_id amount group : ℕ) (level : Option String) (groups : Table OrderGroup)
    (users : Table User) (points : List Point) {u : User} {g : OrderGroup}
    → users user_id ≡ some u
    → groups group ≡ some g
    → let n = points_increase amount level in
      let balance = get_or u.available_points (pos 0) +ℤ pos n in
      issue_after_payment user_id amount (some group) level groups (users, points)
      ≡ ok (
          if n == 0 then (users, points) else (
            put user_id (record u { available_points = some balance }) users,
            reward_point user_id (some group) u.membership_level n balance ∷ points,
          ))
unfolding issue_after_payment
issue_after_payment_lem user_id amount group level groups users points hu hg =
    elim (Bool-cases (points_increase amount level == 0)) [ inl e ↦ rw e | inr e ↦ rw (e, hu, hg) ]
