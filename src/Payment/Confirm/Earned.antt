-- ===== src/Payment/Confirm/Earned.antt =====
-- The reward that step 2.13 of `confirmPayment` adds to the database after the transaction.
use mathlib.Core.Option
use lif_low_backend.Prelude.{
  ==-flipped, add_zero, ℕ, String, ℤ, pos, ◌+ℤ◌, ◌≡◌, refl, Option, some, ◌∷◌, arith, ◌==◌, ==_iff,
  if◌then◌else◌, get_or, is_some_of, filter, map_same, sym, Bool-cases, inl, inr,
}
use lif_low_backend.Schema.{User, OrderGroup, Payment, Db, Table, put}
use lif_low_backend.Points.Laws.{sums_of, plus}
use lif_low_backend.Reward.{points_increase, reward_point}
use lif_low_backend.Reward.Laws.{issue_after_payment_lem}
use lif_low_backend.Payment.Confirm.{issue_reward}

abbrev pub earn : ℕ → User → User
earn n u = record u { available_points = Option.map (λ z. z +ℤ pos n) u.available_points }

-- What the reward leaves behind, for a user who has a balance of points.
pub record IsRewarded (user_id group n : ℕ) (db db' : Db) : Type 0 where
  pub users_are :
      (k : ℕ) → db'.users k ≡ Option.map (λ u. if user_id == k then earn n u else u) (db.users k)
  pub sums_are :
      (k : ℕ)
      → sums_of k (filter (λ p. is_some_of group p.order_group_number) db'.points)
        ≡ plus
            (if user_id == k
              then record { increase = n; deduction = 0 }
              else record { increase = 0; deduction = 0 })
            (sums_of k (filter (λ p. is_some_of group p.order_group_number) db.points))
  pub products_are : db'.products ≡ db.products
  pub orders_are : db'.orders ≡ db.orders
  pub groups_are : db'.order_groups ≡ db.order_groups
  pub payments_are : db'.payments ≡ db.payments

earn_zero : (u : User) → earn 0 u ≡ u
earn_zero u =
    λ i. record u { available_points = map_same (λ z. z +ℤ pos 0) u.available_points add_zero i }

rewarded :
    (k user_id n : ℕ) (u : User) (t : Table User) {z : ℤ}
    → t user_id ≡ some u
    → u.available_points ≡ some z
    → put user_id
        (record u { available_points = some (get_or u.available_points (pos 0) +ℤ pos n) })
        t
        k
      ≡ Option.map (λ v. if user_id == k then earn n v else v) (t k)
rewarded k user_id n u t e a = elim (Bool-cases (k == user_id)) [
  | inl same ↦
      let q : k ≡ user_id = (==_iff k user_id).0 same in
      rw q (simp (e, (==_iff user_id user_id).1 refl, a))
  | inr other ↦ rw other (sym (map_same _ (t k) (λ v. rw (==-flipped k user_id other) refl)))
]

-- A reward for a user with a balance of points and for an order group that are there raises that
-- balance by the reward, and the point records of the group by one record of it; all else stays.
pub issue_reward-IsRewarded :
    (user_id group : ℕ) (p : Payment) (level : Option String) (db : Db) {u : User} {g : OrderGroup}
    {z : ℤ}
    → db.users user_id ≡ some u
    → u.available_points ≡ some z
    → db.order_groups group ≡ some g
    → IsRewarded user_id group
        (points_increase p.total_amount level)
        db
        (issue_reward user_id p group level db)
unfolding issue_reward
issue_reward-IsRewarded user_id group p level db {u} e a eg =
    let n = points_increase p.total_amount level in
    let issued =
      issue_after_payment_lem user_id p.total_amount group level db.order_groups db.users db.points
        e eg in
    elim (Bool-cases (n == 0)) [
      | inl nothing ↦
          rw (issued, nothing, issue_reward)
            record {
              users_are =
                  λ k. sym (map_same _ (db.users k) (unchanged k n ((==_iff n 0).0 nothing)));
              sums_are = λ k. no_record k n ((==_iff n 0).0 nothing);
              products_are = refl;
              orders_are = refl;
              groups_are = refl;
              payments_are = refl;
            }
      | inr something ↦
          rw (issued, something, issue_reward)
            record {
              users_are = λ k. rewarded k user_id n u db.users e a;
              sums_are = λ k. one_record k n _;
              products_are = refl;
              orders_are = refl;
              groups_are = refl;
              payments_are = refl;
            }
    ]
  where
    unchanged : (k n : ℕ) → n ≡ 0 → (v : User) → (if user_id == k then earn n v else v) ≡ v
    unchanged k n q v = elim (Bool-cases (user_id == k)) [
      | inl same ↦ rw (same, q) (earn_zero v)
      | inr other ↦ rw other refl
    ]

    no_record :
        (k n : ℕ)
        → n ≡ 0
        → sums_of k (filter (λ p. is_some_of group p.order_group_number) db.points)
          ≡ plus
              (if user_id == k
                then record { increase = n; deduction = 0 }
                else record { increase = 0; deduction = 0 })
              (sums_of k (filter (λ p. is_some_of group p.order_group_number) db.points))
    no_record k n q = ground arith

    one_record :
        (k n : ℕ) (balance : ℤ)
        → sums_of k (
            filter
              (λ p. is_some_of group p.order_group_number)
              (reward_point user_id (some group) u.membership_level n balance ∷ db.points))
          ≡ plus
              (if user_id == k
                then record { increase = n; deduction = 0 }
                else record { increase = 0; deduction = 0 })
              (sums_of k (filter (λ p. is_some_of group p.order_group_number) db.points))
    one_record k n balance = ground (arith, (==_iff group group).1 refl)
