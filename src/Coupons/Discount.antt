-- ===== src/Coupons/Discount.antt =====
-- How large a discount can be.
use lif_low_backend.Prelude.{ℕ, ◌*◌, ◌≤◌, ◌≡◌, some, arith, get_or, Option-cases, inl, inr, ◌/◌}
use lif_low_backend.Schema.{Coupon, percent}
use lif_low_backend.Coupons.{capped, discount_of}

share-le :
    (total rate : ℕ)
    → rate ≤ 100
    → (total * rate / 100 ≤ total) × (total * rate / 100 * 100 ≤ total * rate)
share-le total rate r = grind arith

capped_lem :
    (most total rate : ℕ)
    → rate ≤ 100
    → let d = capped (some most) (total * rate / 100) in
      (d ≤ total) × (d ≤ most) × (d * 100 ≤ total * rate)
capped_lem most total rate r = grind (arith, share-le total rate r)

-- A percentage coupon of at most 100 percent never takes off more than the amount, nor more than
-- its cap, nor more than its share of the amount.
pub discount_of-percent :
    (c : Coupon) (total quantity : ℕ)
    → c.coupon_type ≡ percent
    → get_or c.discount_rate 0 ≤ 100
    → (discount_of c total quantity ≤ total)
      × (discount_of c total quantity ≤ get_or c.max_discount_amount total)
      × (discount_of c total quantity * 100 ≤ total * get_or c.discount_rate 0)
unfolding discount_of
discount_of-percent c total quantity t r = elim (Option-cases c.max_discount_amount) [
  | inl e ↦
      let (le, share) = share-le total (get_or c.discount_rate 0) r in rw (t, e) (le, le, share)
  | inr (m, e) ↦ rw (t, e) (capped_lem m total (get_or c.discount_rate 0) r)
]
