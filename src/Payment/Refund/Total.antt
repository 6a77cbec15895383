-- ===== src/Payment/Refund/Total.antt =====
-- When a cancellation or a return goes through: as soon as Toss agrees.
use lif_low_backend.Prelude.{
  map-ne-none, ℕ, ◌-◌, ◌<◌, ◌≡◌, ◌≢◌, refl, Bool, true, false, Option, none, some, arith, ltb, leb,
  ◌==◌, Option-cases, Bool-cases, inl, inr,
}
use lif_low_backend.Schema.{
  ok-ne-err, User, OrderGroup, OrderSituation, order_cancelled, order_returned, is_completed,
  is_shipped, is_success, Payment, Db, Table, put, ok, Result-cases,
}
use lif_low_backend.Stock.Laws.{HasProducts, restore_stock_total}
use lif_low_backend.Points.Laws.{restore_points_lem}
use lif_low_backend.Points.Total.{HasUsers, restore_points_total}
use lif_low_backend.Membership.{Clock}
use lif_low_backend.Payment.Toss.{TossPayment}
use lif_low_backend.Payment.Confirm.{orders_of}
use lif_low_backend.Payment.Refund.{
  points_of, subtract_purchase, lower_purchase, refund_tx, cancel_tx, return_tx, TossCancel,
  find_refundable, cancel, return_goods,
}
use lif_low_backend.Payment.Refund.Guards.{IsRefundable}

-- The rows that the foreign keys of the order group's orders, points and orderer promise.
pub record HasRows (p : Payment) (g : OrderGroup) (db : Db) : Type 0 where
  pub products : HasProducts db.products (orders_of p.order_group_number db.orders)
  pub users : HasUsers db.users (points_of p.order_group_number db.points)
  pub orderer : (k : ℕ) → g.orderer_id ≡ some k → db.users k ≢ none

lower_purchase_total :
    (g : OrderGroup) (t : Table User)
    → ((k : ℕ) → g.orderer_id ≡ some k → t k ≢ none)
    → (u : Table User) × (lower_purchase g t ≡ ok u)
unfolding lower_purchase
lower_purchase_total g t there = elim (Option-cases g.orderer_id) [
  | inl e ↦ (t, rw e refl)
  | inr (k, e) ↦ elim (Option-cases (t k)) [
    | inl missing ↦ absurd (there k e missing)
    | inr (v, found) ↦ elim (Bool-cases (ltb 0 g.final_amount)) [
      | inl positive ↦ (put k (subtract_purchase g.final_amount v) t, rw (e, positive, found) refl)
      | inr nothing ↦ (t, rw (e, nothing) refl)
    ]
  ]
]

refund_tx_total :
    (clock : Clock) (s : OrderSituation) (g : OrderGroup) (toss : TossPayment) (p : Payment)
    (db : Db)
    → db.order_groups p.order_group_number ≡ some g
    → HasRows p g db
    → (r : Payment × Db) × (refund_tx clock s g toss p db ≡ ok r)
unfolding refund_tx
refund_tx_total clock s g toss p db eg rows =
    let (products, e1) =
      restore_stock_total (orders_of p.order_group_number db.orders) db.products rows.products in
    let (restored, e2) =
      restore_points_total (points_of p.order_group_number db.points) db.users rows.users in
    let kept : (k : ℕ) → g.orderer_id ≡ some k → restored k ≢ none = λ k e.
      map-ne-none _ (db.users k) (restored k)
        (restore_points_lem k (points_of p.order_group_number db.points) db.users e2)
        (rows.orderer k e) in
    let (lowered, e3) = lower_purchase_total g restored kept in
    elim (Result-cases (refund_tx clock s g toss p db)) [
      | inl found ↦ found
      | inr (e, fails) ↦ absurd (ok-ne-err (rw (e1, eg, e2, e3) at fails))
    ]

refundable_passes :
    (allowed : OrderSituation → Bool) (id : ℕ) (db : Db) (p : Payment) (g : OrderGroup)
    → IsRefundable allowed id db p g
    → find_refundable allowed id db ≡ ok (p, g)
unfolding find_refundable
refundable_passes allowed id db p g r =
    rw (r.found, r.group_found, r.situation_allowed, paid, positive p.balance_amount r.has_balance)
      refl
  where
    paid : is_success p.status ≡ true
    paid = rw r.paid refl

    positive : (n : ℕ) → 0 < n → (n == 0) ≡ false
    positive n h = ground arith

-- A cancellation goes through as soon as the payment is refundable and Toss agrees, where the rows
-- that the foreign keys promise are there.
pub cancel_total :
    (toss_cancel : TossCancel) (clock : Clock) (id : ℕ) (amount : Option ℕ) (db : Db) {p : Payment}
    {g : OrderGroup} {toss : TossPayment}
    → IsRefundable is_completed id db p g
    → toss_cancel p.payment_key amount ≡ ok toss
    → HasRows p g db
    → (r : Payment × Db) × (cancel toss_cancel clock id amount db ≡ ok r)
unfolding cancel cancel_tx
cancel_total toss_cancel clock id amount db {p} {g} {toss} fine agrees rows =
    let (r, done) = refund_tx_total clock order_cancelled g toss p db fine.group_found rows in
    (r, rw (refundable_passes is_completed id db p g fine, agrees) done)

-- A return likewise, with a balance above the delivery fee, where Toss agrees to refund the
-- balance less that fee.
pub return_goods_total :
    (toss_cancel : TossCancel) (clock : Clock) (id : ℕ) (db : Db) {p : Payment} {g : OrderGroup}
    {toss : TossPayment}
    → IsRefundable is_shipped id db p g
    → g.delivery_fee < p.balance_amount
    → toss_cancel p.payment_key (some (p.balance_amount - g.delivery_fee)) ≡ ok toss
    → HasRows p g db
    → (r : Payment × Db) × (return_goods toss_cancel clock id db ≡ ok r)
unfolding return_goods return_tx
return_goods_total toss_cancel clock id db {p} {g} {toss} fine above agrees rows =
    let (r, done) = refund_tx_total clock order_returned g toss p db fine.group_found rows in
    (
      r,
      rw
          (
            refundable_passes is_shipped id db p g fine,
            enough p.balance_amount g.delivery_fee above,
            agrees,
          )
          done,
    )
  where
    enough : (b f : ℕ) → f < b → leb b f ≡ false
    enough b f h = ground arith
