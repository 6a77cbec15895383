-- ===== src/CouponHistories/Usage.antt =====
-- The use and the cancellation of one history: `useCoupon` and `cancelCoupon` in
-- src/modules/coupon-history/coupon-history.service.ts, on the entities that
-- src/modules/coupon-history/mapper/coupon-history.mapper.ts makes of the rows. The whole part of
-- `purchaseAmount * (discountRate / 100)`, a product of doubles, is an argument.
pub mod Laws
use lif_low_backend.Prelude.{
  ℕ, ◌-◌, String, Bool, true, false, not, Option, none, some, List, ◌==◌, ltb, if◌then◌else◌,
  get_or,
}
use lif_low_backend.Schema.{
  Coupon, CouponType, percent, amount, free_shipping, CouponHistory, is_issued, is_used, Result, ok,
  err, ◌>>=◌, ◌>>◌, or_throw, throw_if, not_found, bad_request, internal, coupon_not_found,
  coupon_inactive, coupon_already_used, coupon_not_issued, coupon_expired,
  insufficient_purchase_amount, invalid_coupon_type,
}
use lif_low_backend.Coupons.{Use}
use lif_low_backend.CouponHistories.{find_one, mark_as_used, mark_as_cancelled}
use lif_low_backend.CouponHistories.Issuance.{find_coupon}

-- The coupon as an entity has it; `none` in the last two stands for a property that is not there.
pub record CouponInfo : Type 0 where
  pub code : String
  pub coupon_type : CouponType
  pub discount_rate : Option ℕ
  pub discount_amount : Option ℕ
  pub max_discount_amount : Option ℕ
  pub min_purchase_amount : ℕ
  pub is_active : Option Bool
  pub end_date : Option ℕ

-- The relation in `toCouponHistoryEntityWithRelations`, which copies neither `isActive` nor
-- `endDate`.
unfoldable pub to_coupon_info : Coupon → CouponInfo
to_coupon_info c = record {
  code = c.code;
  coupon_type = c.coupon_type;
  discount_rate = c.discount_rate;
  discount_amount = c.discount_amount;
  max_discount_amount = c.max_discount_amount;
  min_purchase_amount = c.min_purchase_amount;
  is_active = none;
  end_date = none;
}

-- `include: { coupon: true }`
abbrev pub coupon_of_history : List Coupon → CouponHistory → Option Coupon
coupon_of_history coupons h = elim h.coupon_id [ none ↦ none | some k ↦ find_coupon k coupons ]

-- `a || b`, for dates.
abbrev pub or_date : Option ℕ → Option ℕ → Option ℕ
or_date (some d) _ = some d
or_date none e = e

-- `now > date`, which is false if there is none.
abbrev pub is_past : ℕ → Option ℕ → Bool
is_past now none = false
is_past now (some d) = ltb d now

unfoldable pub validate_coupon_usage : ℕ → ℕ → CouponHistory → CouponInfo → Result (Unit {0})
validate_coupon_usage now purchase h c =
    throw_if (not (is_issued h.status))
      (bad_request (if is_used h.status then coupon_already_used else coupon_not_issued))
    >> throw_if (not (get_or c.is_active false)) (bad_request coupon_inactive)
    >> throw_if (is_past now (or_date h.expired_at c.end_date)) (bad_request coupon_expired)
    >> throw_if (ltb purchase c.min_purchase_amount) (bad_request insufficient_purchase_amount)

abbrev pub least : ℕ → ℕ → ℕ
least a b = if ltb b a then b else a

-- `Math.min(discount, maxDiscountAmount || Infinity)`
abbrev pub least_or_infinity : ℕ → Option ℕ → ℕ
least_or_infinity d none = d
least_or_infinity d (some most) = if most == 0 then d else least d most

unfoldable pub calculate_discount : (ℕ → ℕ → ℕ) → CouponInfo → ℕ → Result ℕ
calculate_discount share c purchase = elim c.coupon_type [
  | percent ↦
      ok (least_or_infinity (share purchase (get_or c.discount_rate 0)) c.max_discount_amount)
  | amount ↦ ok (least (get_or c.discount_amount 0) purchase)
  | free_shipping ↦ err (internal invalid_coupon_type)
]

-- The arguments of `useCoupon`.
pub record UseCoupon : Type 0 where
  pub history_id : ℕ
  pub order_id : ℕ
  pub purchase_amount : ℕ

-- The discount, the amount that is left, and the histories.
unfoldable pub use_coupon :
    (ℕ → ℕ → ℕ)
    → List Coupon
    → ℕ
    → UseCoupon
    → List CouponHistory
    → Result (ℕ × ℕ × List CouponHistory)
use_coupon share coupons now u hs = find_one u.history_id hs >>= λ h.
    or_throw (coupon_of_history coupons h) (not_found coupon_not_found) >>= λ c.
    validate_coupon_usage now u.purchase_amount h (to_coupon_info c)
    >> (calculate_discount share (to_coupon_info c) u.purchase_amount >>= λ d.
        mark_as_used u.history_id
          (record {
            user_id = h.user_id;
            order_id = u.order_id;
            now = now;
            discount = d;
            purchase = u.purchase_amount;
          })
          hs
        >>= λ hs'. ok (d, u.purchase_amount - d, hs'))

unfoldable pub cancel_coupon : ℕ → ℕ → List CouponHistory → Result (List CouponHistory)
cancel_coupon id now hs = find_one id hs >>= λ h.
    throw_if (not (is_issued h.status)) (bad_request coupon_not_issued)
    >> mark_as_cancelled id now hs
