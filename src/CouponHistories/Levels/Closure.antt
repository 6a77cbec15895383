-- ===== src/CouponHistories/Levels/Closure.antt =====
-- What holds of nothing done, of one call after another, and of one new history for the user, holds
-- of the calls that issue coupons with a membership level.
use lif_low_backend.Prelude.{ℕ, String, List, Bool-cases, Option-cases, inl, inr, ◌==◌}
use lif_low_backend.Schema.{User, Table, Coupon}
use lif_low_backend.Coupons.{Histories}
use lif_low_backend.CouponHistories.{create_with_quantity, exists_by_user_and_coupon}
use lif_low_backend.CouponHistories.Levels.{
  Occasion, level_of, issue_of, issue_of_code, find_by_code, free_shipping_count,
  shopping_support_code, shopping_support_count, is_lv5, issue_free_shipping,
  issue_shopping_support, issue_special_benefit, issue_after_update,
}

module _ (R : Histories → Histories → Type 0) (same : (s : Histories) → R s s)
    (after : (r s t : Histories) → R r s → R s t → R r t) (o : Occasion)
    (created : (k n : ℕ) (s : Histories)
      → R s (create_with_quantity k o.user_id (issue_of n o) s)) where
  pub closed-issue_of_code :
      (coupons : List Coupon) (code : String) (n : ℕ) (s : Histories)
      → R s (issue_of_code coupons code n o s).1
  unfolding issue_of_code
  closed-issue_of_code coupons code n s = elim (Option-cases (find_by_code code coupons)) [
    | inl e ↦ rw (e, issue_of_code) (same s)
    | inr (c, e) ↦ elim (Bool-cases c.is_active) [
      | inl a ↦ rw (e, a, issue_of_code) (created c.id n s)
      | inr a ↦ rw (e, a, issue_of_code) (same s)
    ]
  ]

  closed-issue_free_shipping :
      (users : Table User) (coupons : List Coupon) (s : Histories)
      → R s (issue_free_shipping users coupons o s).1
  unfolding issue_free_shipping
  closed-issue_free_shipping users coupons s = elim (Option-cases (level_of users o)) [
    | inl e ↦ rw (e, issue_free_shipping) (same s)
    | inr (level, e) ↦ elim (Bool-cases (free_shipping_count level == 0)) [
      | inl z ↦ rw (e, z, issue_free_shipping) (same s)
      | inr z ↦ rw (e, z, issue_free_shipping) (closed-issue_of_code coupons "FREE_SHIPPING" _ s)
    ]
  ]

  closed-issue_shopping_support :
      (users : Table User) (coupons : List Coupon) (s : Histories)
      → R s (issue_shopping_support users coupons o s).1
  unfolding issue_shopping_support
  closed-issue_shopping_support users coupons s = elim (Option-cases (level_of users o)) [
    | inl e ↦ rw (e, issue_shopping_support) (same s)
    | inr (level, e) ↦ elim (Option-cases (shopping_support_code level)) [
      | inl f ↦ rw (e, f, issue_shopping_support) (same s)
      | inr (code, f) ↦ elim (Bool-cases (shopping_support_count level == 0)) [
        | inl z ↦ rw (e, f, z, issue_shopping_support) (same s)
        | inr z ↦ rw (e, f, z, issue_shopping_support) (closed-issue_of_code coupons code _ s)
      ]
    ]
  ]

  closed-issue_special_benefit :
      (users : Table User) (coupons : List Coupon) (s : Histories)
      → R s (issue_special_benefit users coupons o s).1
  unfolding issue_special_benefit
  closed-issue_special_benefit users coupons (hs, last) =
      elim (Bool-cases (is_lv5 (level_of users o))) [
        | inr l ↦ rw (l, issue_special_benefit) (same (hs, last))
        | inl l ↦ elim (Option-cases (find_by_code "SPECIAL_BENEFIT" coupons)) [
          | inl e ↦ rw (l, e, issue_special_benefit) (same (hs, last))
          | inr (c, e) ↦ elim (Bool-cases c.is_active) [
            | inr a ↦ rw (l, e, a, issue_special_benefit) (same (hs, last))
            | inl a ↦ elim (Bool-cases (exists_by_user_and_coupon o.user_id c.id hs)) [
              | inl x ↦ rw (l, e, a, x, issue_special_benefit) (same (hs, last))
              | inr x ↦ rw (l, e, a, x, issue_special_benefit) (created c.id 1 (hs, last))
            ]
          ]
        ]
      ]

  pub closed-issue_after_update :
      (users : Table User) (coupons : List Coupon) (s : Histories)
      → R s (issue_after_update users coupons o s).1
  unfolding issue_after_update
  closed-issue_after_update users coupons s =
      let free = issue_free_shipping users coupons o s in
      let support = issue_shopping_support users coupons o free.1 in
      let special = issue_special_benefit users coupons o support.1 in
      after s free.1 special.1 (closed-issue_free_shipping users coupons s) (
        after free.1 support.1 special.1 (closed-issue_shopping_support users coupons free.1)
          (closed-issue_special_benefit users coupons support.1))
