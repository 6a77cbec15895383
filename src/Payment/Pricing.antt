-- ===== src/Payment/Pricing.antt =====
-- What `initiatePayment` and `initiatePaymentV2` in src/modules/payment/payment.service.ts check
-- and compute before an order is made: points, stock, coupons and the final amount. The amounts
-- of a request are not negative (the DTO asks for it), so an absent number is 0 as in the source.
pub mod Amounts
use lif_low_backend.Prelude.{
  ℕ, ◌+◌, ◌-◌, ◌*◌, ℤ, pos, ltb_ℤ, Bool, true, false, ◌&&◌, Option, none, some, List, [], ◌∷◌, ◌==◌,
  ltb, is_zero_ℤ, if◌then◌else◌, get_or, sum_by, filter, find,
}
use lif_low_backend.Schema.{
  Coupon, CouponType, percent, amount, free_shipping, CartItem, Product, Table, Result, ok, err,
  ◌>>=◌, ◌>>◌, throw_if, bad_request, points_zero, insufficient_points, not_enough_quantity,
  discount_exceeds_amount, minimum_payment_amount,
}
use lif_low_backend.Coupons.{CouponEntry, discount_of, is_entry_of}

-- Step 2.
unfoldable pub check_points : Option ℤ → ℕ → Result (Unit {0})
check_points available points =
    let balance = get_or available (pos 0) in
    if ltb 0 points
    then (do
      throw_if (is_zero_ℤ balance) (bad_request points_zero)
      throw_if (ltb_ℤ balance (pos points)) (bad_request insufficient_points))
    else ok tt

-- The loop of step 4: a product without a stock figure is not checked.
unfoldable pub check_stock : Table Product → List CartItem → Result (Unit {0})
check_stock products [] = ok tt
check_stock products (i ∷ is) = elim (products i.product_id) [
  | none ↦ check_stock products is
  | some p ↦ elim p.origin [
    | none ↦ check_stock products is
    | some z ↦
        let rest = check_stock products is in
        if ltb_ℤ z (pos i.quantity) then err (bad_request not_enough_quantity) else rest
  ]
]

-- Step 5.
abbrev pub line_amount : CartItem → ℕ
line_amount i = i.sale_price * i.quantity

abbrev pub original_amount : List CartItem → ℕ
original_amount = sum_by line_amount

-- `couponIds.find(…)?.quantity ?? 1`: of two entries for a coupon the first one counts.
abbrev pub first_quantity : List CouponEntry → ℕ → ℕ
first_quantity es k = elim (find (λ (e : CouponEntry). e.coupon_id == k) es) [
  | none ↦ 1
  | some e ↦ get_or e.quantity 1
]

-- `coupon.findMany`: the active coupons that the request names.
abbrev pub coupons_of : List CouponEntry → List Coupon → List Coupon
coupons_of es = filter λ c. is_entry_of es c.id && c.is_active

-- Step 6: the discount of all coupons on the whole amount.
abbrev pub coupon_discount : List CouponEntry → ℕ → List Coupon → ℕ
coupon_discount es total = sum_by (λ (c : Coupon). discount_of c total (first_quantity es c.id))

abbrev pub is_free_shipping : CouponType → Bool
is_free_shipping free_shipping = true
is_free_shipping _ = false

-- Step 6: any coupon for free shipping sets the fee to 0.
abbrev pub effective_fee : ℕ → List Coupon → ℕ
effective_fee fee [] = fee
effective_fee fee (c ∷ cs) = if is_free_shipping c.coupon_type then 0 else effective_fee fee cs

-- Step 7: the amount, the discount less, the fee more, which may be negative in the source.
unfoldable pub final_amount_of : (original discount fee minimum : ℕ) → Result ℕ
final_amount_of original discount fee minimum = do
  throw_if (ltb (original + fee) discount) (bad_request discount_exceeds_amount)
  throw_if (ltb (original + fee - discount) minimum) (bad_request minimum_payment_amount)
  ok (original + fee - discount)
