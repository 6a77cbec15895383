-- ===== src/Coupons.antt =====
-- Coupons in src/modules/payment/payment.service.ts: the discount of one coupon, as
-- `initiatePayment`, `initiatePaymentV2` and `confirmPayment` compute it, and the coupon
-- histories that a confirmed payment uses up (steps 2.4 and 2.5 of `confirmPayment`).
pub mod Discount
pub mod Used
use lif_low_backend.Prelude.{
  ℕ, suc, ◌+◌, ◌-◌, ◌*◌, ◌/◌, Bool, true, false, ◌&&◌, Option, none, some, List, [], ◌∷◌, ltb, leb,
  ◌==◌, if◌then◌else◌, get_or, is_some_of, find,
}
use lif_low_backend.Schema.{
  Coupon, CouponType, percent, amount, free_shipping, CouponHistory, CouponHistoryStatus, issued,
  used, is_issued, Order,
}

-- `CouponIdQuantityDto`, for a quantity that is a natural number: the request is checked for a number
-- only, and one that is negative or has a fraction is outside the model.
pub record CouponEntry : Type 0 where
  pub coupon_id : ℕ
  pub quantity : Option ℕ

-- `if (max != null && discount > max) discount = max`
abbrev pub capped : Option ℕ → ℕ → ℕ
capped none discount = discount
capped (some most) discount = if ltb most discount then most else discount

-- The discount of one coupon, used `quantity` times, on an amount. A coupon for free shipping
-- takes nothing off the amount.
unfoldable pub discount_of : Coupon → ℕ → ℕ → ℕ
discount_of c total quantity = elim c.coupon_type [
  | percent ↦ capped c.max_discount_amount (total * get_or c.discount_rate 0 / 100)
  | amount ↦ get_or c.discount_amount 0 * quantity
  | free_shipping ↦ 0
]

-- `couponQuantityByEntry.get(id) ?? 1`: of two entries for a coupon the later one counts.
unfoldable pub entry_quantity : ℕ → List CouponEntry → ℕ
entry_quantity k [] = 1
entry_quantity k (e ∷ es) =
    let later = entry_quantity k es in
    elim (find (λ (x : CouponEntry). x.coupon_id == k) es) [
      | some _ ↦ later
      | none ↦ if e.coupon_id == k then get_or e.quantity 1 else 1
    ]

abbrev pub is_entry_of : List CouponEntry → ℕ → Bool
is_entry_of es k = elim (find (λ (x : CouponEntry). x.coupon_id == k) es) [
  | none ↦ false
  | some _ ↦ true
]

-- `couponMap.get(id)`: the coupon of the table, if the request names it.
abbrev pub coupon_of_entry : List CouponEntry → List Coupon → ℕ → Option Coupon
coupon_of_entry es coupons k =
    if is_entry_of es k then find (λ (c : Coupon). c.id == k) coupons else none

abbrev pub is_issued_to : ℕ → ℕ → CouponHistory → Bool
is_issued_to coupon_id user_id h =
    is_some_of coupon_id h.coupon_id && (h.user_id == user_id && is_issued h.status)

-- `findFirst({ where: …, orderBy: { issuedAt: 'asc' } })`
unfoldable pub oldest_issued : ℕ → ℕ → List CouponHistory → Option CouponHistory
oldest_issued coupon_id user_id [] = none
oldest_issued coupon_id user_id (h ∷ hs) =
    let rest = oldest_issued coupon_id user_id hs in
    if is_issued_to coupon_id user_id h
    then elim rest [
      | none ↦ some h
      | some g ↦ if leb h.issued_at g.issued_at then some h else some g
    ]
    else rest

-- `update({ where: { id } })`
unfoldable pub set_history :
    ℕ → (CouponHistory → CouponHistory) → List CouponHistory → List CouponHistory
set_history k f [] = []
set_history k f (h ∷ hs) = if h.id == k then f h ∷ hs else h ∷ set_history k f hs

-- What is written of one use: who and what it was, and when.
pub record Use : Type 0 where
  pub user_id : ℕ
  pub order_id : ℕ
  pub now : ℕ
  pub discount : ℕ
  pub purchase : ℕ

abbrev pub used_history : ℕ → ℕ → ℕ → Use → CouponHistory
used_history id coupon_id quantity u = record {
  id = id;
  coupon_id = some coupon_id;
  user_id = u.user_id;
  quantity = quantity;
  order_id = some u.order_id;
  status = CouponHistoryStatus.used;
  start_date = none;
  end_date = none;
  payment_id = none;
  issued_at = u.now;
  used_at = some u.now;
  expired_at = none;
  cancelled_at = none;
  discount_applied_amount = some u.discount;
  purchase_amount_at_use = some u.purchase;
}

abbrev pub mark_used : Use → CouponHistory → CouponHistory
mark_used u h = record h {
  status = CouponHistoryStatus.used;
  order_id = some u.order_id;
  used_at = some u.now;
  discount_applied_amount = some u.discount;
  purchase_amount_at_use = some u.purchase;
}

abbrev pub lower_quantity : ℕ → CouponHistory → CouponHistory
lower_quantity n h = record h { quantity = h.quantity - n }

-- The histories, and the last identifier that was handed out.
abbrev pub Histories : Type 0
Histories = List CouponHistory × ℕ

-- One use of a coupon, `quantity` times: part of the oldest issued history, or all of it, or, if
-- the user holds none, a new history of quantity 1.
unfoldable pub use_history : ℕ → ℕ → Use → Histories → Histories
use_history coupon_id quantity u (hs, last) = elim (oldest_issued coupon_id u.user_id hs) [
  | none ↦ (used_history (suc last) coupon_id 1 u ∷ hs, suc last)
  | some h ↦
      if ltb quantity h.quantity
      then (
        used_history (suc last) coupon_id quantity u
            ∷ set_history h.id (lower_quantity quantity) hs,
        suc last,
      )
      else (set_history h.id (mark_used u) hs, last)
]

module _ (es : List CouponEntry) (coupons : List Coupon) (user_id now : ℕ) where
  -- The body of the inner loop of step 2.5.
  unfoldable pub use_coupon : Order → ℕ → Histories → Histories
  use_coupon o k s = elim (coupon_of_entry es coupons k) [
    | none ↦ s
    | some c ↦
        let total = get_or o.total_order_amount 0 in
        let quantity = entry_quantity c.id es in
        use_history c.id quantity
          (record {
            user_id = user_id;
            order_id = o.id;
            now = now;
            discount = discount_of c total quantity;
            purchase = total;
          })
          s
  ]

  unfoldable pub use_coupons_of_order : Order → List ℕ → Histories → Histories
  use_coupons_of_order o [] s = s
  use_coupons_of_order o (k ∷ ks) s = use_coupons_of_order o ks (use_coupon o k s)

  -- Step 2.5.
  unfoldable pub use_coupons : List Order → Histories → Histories
  use_coupons [] s = s
  use_coupons (o ∷ orders) s = use_coupons orders (use_coupons_of_order o o.coupon_used s)
