-- ===== src/Orders/Redemption.antt =====
-- The coupons of orders that are made outside a payment: the loop over them in `create` of
-- src/modules/order/order.service.ts. The amount after a rate, `Math.floor(total * (rate / 100))`,
-- is computed in doubles and is an argument.
use lif_low_backend.Prelude.{
  ℕ, suc, Bool, false, not, ◌&&◌, Option, none, some, List, [], ◌∷◌, ltb, ◌==◌, if◌then◌else◌,
  get_or, find, is_some_of,
}
use lif_low_backend.Schema.{
  Coupon, percent, amount, free_shipping, CouponHistory, issued, used, is_issued, Db, Result, ok,
  ◌>>=◌, ◌>>◌, or_throw, throw_if, bad_request, coupon_not_found, coupon_inactive,
  coupon_already_used, coupon_expired, insufficient_purchase_amount,
}

-- `if (n)`, and the number.
abbrev pub truthy : Option ℕ → Option ℕ
truthy none = none
truthy (some n) = if n == 0 then none else some n

abbrev pub at_most : Option ℕ → ℕ → ℕ
at_most none d = d
at_most (some most) d = if ltb most d then most else d

-- A history of the user and the coupon, of whatever status.
abbrev pub is_history_of : ℕ → ℕ → CouponHistory → Bool
is_history_of coupon_id user_id h = is_some_of coupon_id h.coupon_id && h.user_id == user_id

abbrev pub issued_history : ℕ → ℕ → ℕ → ℕ → CouponHistory
issued_history id coupon_id user_id now = record {
  id = id;
  coupon_id = some coupon_id;
  user_id = user_id;
  quantity = 1;
  order_id = none;
  status = issued;
  start_date = none;
  end_date = none;
  payment_id = none;
  issued_at = now;
  used_at = none;
  expired_at = none;
  cancelled_at = none;
  discount_applied_amount = none;
  purchase_amount_at_use = none;
}

unfoldable pub set_row :
    ℕ → (CouponHistory → CouponHistory) → List CouponHistory → List CouponHistory
set_row id f [] = []
set_row id f (h ∷ hs) = if h.id == id then f h ∷ hs else h ∷ set_row id f hs

abbrev pub is_before : Option ℕ → ℕ → Bool
is_before none now = false
is_before (some e) now = ltb e now

module _ (after_rate : ℕ → ℕ → ℕ) where
  abbrev pub coupon_amount : Coupon → ℕ → ℕ
  coupon_amount c total = elim c.coupon_type [
    | percent ↦ elim (truthy c.discount_rate) [
      | none ↦ 0
      | some rate ↦ at_most (truthy c.max_discount_amount) (after_rate total rate)
    ]
    | amount ↦ get_or c.discount_amount 0
    | free_shipping ↦ 0
  ]

  abbrev pub use_up : Option ℕ → ℕ → ℕ → ℕ → CouponHistory → CouponHistory
  use_up order_id now discount total h = record h {
    status = used;
    used_at = some now;
    order_id = order_id;
    discount_applied_amount = some discount;
    purchase_amount_at_use = some total;
  }

  -- The history that a coupon is used from: one of the user, or else a new one.
  abbrev pub history_for : ℕ → ℕ → ℕ → Db → CouponHistory × Db
  history_for coupon_id user_id now db =
      elim (find (is_history_of coupon_id user_id) db.coupon_histories) [
        | some h ↦ (h, db)
        | none ↦
            let h = issued_history (suc db.last_id) coupon_id user_id now in
            (h, record db { coupon_histories = h ∷ db.coupon_histories; last_id = suc db.last_id })
      ]

  -- One round of the loop over the coupons.
  unfoldable pub use_order_coupon : ℕ → Option ℕ → ℕ → ℕ → ℕ → Db → Result Db
  use_order_coupon user_id order_id total now coupon_id db =
      or_throw (find (λ (c : Coupon). c.id == coupon_id) db.coupons) (bad_request coupon_not_found)
      >>= λ c.
          throw_if (not c.is_active) (bad_request coupon_inactive)
          >> throw_if (ltb total c.min_purchase_amount) (bad_request insufficient_purchase_amount)
          >> (let (h, db') = history_for coupon_id user_id now db in
              throw_if (not (is_issued h.status)) (bad_request coupon_already_used)
              >> throw_if (is_before h.expired_at now) (bad_request coupon_expired)
              >> ok (record db' {
                coupon_histories =
                    set_row h.id (use_up order_id now (coupon_amount c total) total)
                      db'.coupon_histories;
              }))

  unfoldable pub use_order_coupons : ℕ → Option ℕ → ℕ → ℕ → List ℕ → Db → Result Db
  use_order_coupons user_id order_id total now [] db = ok db
  use_order_coupons user_id order_id total now (k ∷ ks) db =
      use_order_coupon user_id order_id total now k db
      >>= use_order_coupons user_id order_id total now ks
