-- ===== src/Payment/Refund.antt =====
-- `cancelPayment` and `returnPayment` in src/modules/payment/payment.service.ts. Their two
-- transactions take the same steps and differ in the situation that they leave; the column
-- `cancels`, which both copy from Toss, is left out.
pub mod Guards
pub mod Effects
pub mod Closed
pub mod Total
pub mod RoundTrip
pub mod Restored
use mathlib.Core.Option
use lif_low_backend.Prelude.{
  ℕ, ◌-◌, pos, sub_ℕ, ◌-ℤ◌, Bool, true, false, not, ◌&&◌, Option, none, some, List, [], ◌∷◌, ◌==◌,
  ltb, leb, if◌then◌else◌, is_some_of, filter, find,
}
use lif_low_backend.Schema.{
  User, OrderGroup, OrderSituation, order_cancelled, order_returned, is_completed, is_shipped,
  is_success, is_issued, success, PaymentStatus, Payment, Point, CouponHistory, Db, Table, update,
  Result, ok, err, ◌>>=◌, ◌>>◌, or_throw, throw_if, not_found, bad_request, payment_not_found,
  order_group_not_found, situation_not_allowed, only_successful_payments, no_balance,
  nothing_to_refund,
}
use lif_low_backend.Stock.{restore_stock}
use lif_low_backend.Points.{restore_points}
use lif_low_backend.Membership.{Clock, recalculate}
use lif_low_backend.Payment.Toss.{TossPayment}
use lif_low_backend.Payment.Confirm.{orders_of, World, Notice, payment_cancelled, payment_returned}

abbrev pub find_payment : ℕ → List Payment → Option Payment
find_payment id = find (λ (p : Payment). p.id == id)

unfoldable pub set_payment : ℕ → Payment → List Payment → List Payment
set_payment id p' [] = []
set_payment id p' (p ∷ ps) = if p.id == id then p' ∷ ps else p ∷ set_payment id p' ps

abbrev pub points_of : ℕ → List Point → List Point
points_of group = filter λ p. is_some_of group p.order_group_number

-- Step 3: what Toss still holds decides the status.
abbrev pub refunded : TossPayment → Payment → Payment
refunded toss p = record p {
  status = if toss.balance_amount == 0 then PaymentStatus.cancelled else success;
  balance_amount = toss.balance_amount;
  canceled_amount = sub_ℕ p.total_amount toss.balance_amount;
}

abbrev pub with_situation : OrderSituation → OrderGroup → OrderGroup
with_situation s g = record g { situation = s }

abbrev pub subtract_purchase : ℕ → User → User
subtract_purchase n u = record u {
  total_purchase_amount = Option.map (λ z. z -ℤ pos n) u.total_purchase_amount;
}

-- Step 6.
unfoldable pub lower_purchase : OrderGroup → Table User → Result (Table User)
lower_purchase g t = elim g.orderer_id [
  | none ↦ ok t
  | some k ↦ if ltb 0 g.final_amount then update k (subtract_purchase g.final_amount) t else ok t
]

-- Step 7: the coupons that this payment issued and that are still unused go.
abbrev pub is_issued_by : ℕ → CouponHistory → Bool
is_issued_by payment_id h = is_some_of payment_id h.payment_id && is_issued h.status

-- The transaction (steps 1 to 8): the payment as it is saved, and the database.
unfoldable pub refund_tx :
    Clock → OrderSituation → OrderGroup → TossPayment → Payment → Db → Result (Payment × Db)
refund_tx clock situation g toss p db = do
  let group = p.order_group_number
  products ← restore_stock (orders_of group db.orders) db.products
  order_groups ← update group (with_situation situation) db.order_groups
  restored ← restore_points (points_of group db.points) db.users
  lowered ← lower_purchase g restored
  let members = recalculate clock p.user_id db.memberships (lowered, db.user_memberships)
  ok (
    refunded toss p,
    record db {
      products = products;
      order_groups = order_groups;
      payments = set_payment p.id (refunded toss p) db.payments;
      coupon_histories = filter (λ h. not (is_issued_by p.id h)) db.coupon_histories;
      users = members.0;
      user_memberships = members.1;
    },
  )

unfoldable pub cancel_tx : Clock → OrderGroup → TossPayment → Payment → Db → Result (Payment × Db)
unfolding refund_tx
cancel_tx clock = refund_tx clock order_cancelled

unfoldable pub return_tx : Clock → OrderGroup → TossPayment → Payment → Db → Result (Payment × Db)
unfolding refund_tx
return_tx clock = refund_tx clock order_returned

-- Toss asked to cancel: the payment key, and the amount, where none is the whole balance.
abbrev pub TossCancel : Type 0
TossCancel = ℕ → Option ℕ → Result TossPayment

-- The checks that both services make of the payment and of its order group.
unfoldable pub find_refundable : (OrderSituation → Bool) → ℕ → Db → Result (Payment × OrderGroup)
find_refundable allowed payment_id db = do
  p ← or_throw (find_payment payment_id db.payments) (not_found payment_not_found)
  g ← or_throw (db.order_groups p.order_group_number) (not_found order_group_not_found)
  throw_if (not (allowed g.situation)) (bad_request situation_not_allowed)
  throw_if (not (is_success p.status)) (bad_request only_successful_payments)
  throw_if (p.balance_amount == 0) (bad_request no_balance)
  ok (p, g)

-- `cancelPayment` up to the end of its transaction.
unfoldable pub cancel : TossCancel → Clock → ℕ → Option ℕ → Db → Result (Payment × Db)
cancel toss_cancel clock payment_id cancel_amount db = do
  found ← find_refundable is_completed payment_id db
  toss ← toss_cancel found.0.payment_key cancel_amount
  cancel_tx clock found.1 toss found.0 db

-- `returnPayment` up to the end of its transaction: the customer bears the delivery fee.
unfoldable pub return_goods : TossCancel → Clock → ℕ → Db → Result (Payment × Db)
return_goods toss_cancel clock payment_id db = do
  found ← find_refundable is_shipped payment_id db
  throw_if (leb found.0.balance_amount found.1.delivery_fee) (bad_request nothing_to_refund)
  toss ← toss_cancel found.0.payment_key (some (found.0.balance_amount - found.1.delivery_fee))
  return_tx clock found.1 toss found.0 db

-- The database and the notification after the call; an exception is thrown on.
abbrev pub finish : (ℕ → ℕ → Notice) → Result (Payment × Db) → World → Result Payment × World
finish notice (ok (p, db)) w =
    (ok p, record w { db = db; notices = notice p.user_id p.order_group_number ∷ w.notices })
finish notice (err e) w = (err e, w)

pub cancel_payment : TossCancel → Clock → ℕ → Option ℕ → World → Result Payment × World
cancel_payment toss_cancel clock payment_id cancel_amount w =
    finish payment_cancelled (cancel toss_cancel clock payment_id cancel_amount w.db) w

pub return_payment : TossCancel → Clock → ℕ → World → Result Payment × World
return_payment toss_cancel clock payment_id w =
    finish payment_returned (return_goods toss_cancel clock payment_id w.db) w
