-- ===== src/Payment/Refund/Guards.antt =====
-- When a cancellation or a return is refused, and that a refusal changes nothing.
use lif_low_backend.Prelude.{
  ℕ, ◌-◌, ◌<◌, ◌≡◌, Bool, true, Option, some, arith, ◌==◌, leb, Bool-cases, inl, inr,
}
use lif_low_backend.Schema.{
  OrderGroup, OrderSituation, is_success, is_completed, is_shipped, success, Payment, Db, ok, err,
  throw_if, >>=-eq-ok, Reason, bad_request, situation_not_allowed, only_successful_payments,
  no_balance,
}
use lif_low_backend.Membership.{Clock}
use lif_low_backend.Payment.Toss.{TossPayment}
use lif_low_backend.Payment.Confirm.{World}
use lif_low_backend.Payment.Refund.{
  find_payment, find_refundable, TossCancel, cancel_tx, return_tx, cancel, return_goods,
  cancel_payment, return_payment,
}

-- What holds of a payment and its order group that pass the checks.
pub record IsRefundable (allowed : OrderSituation → Bool) (id : ℕ) (db : Db) (p : Payment)
    (g : OrderGroup) : Type 0 where
  pub found : find_payment id db.payments ≡ some p
  pub group_found : db.order_groups p.order_group_number ≡ some g
  pub situation_allowed : allowed g.situation ≡ true
  pub paid : p.status ≡ success
  pub has_balance : 0 < p.balance_amount

pub find_refundable-IsRefundable :
    (allowed : OrderSituation → Bool) (id : ℕ) (db : Db) {p : Payment} {g : OrderGroup}
    → find_refundable allowed id db ≡ ok (p, g)
    → IsRefundable allowed id db p g
unfolding find_refundable
find_refundable-IsRefundable allowed id db h = ground arith

-- A cancellation succeeds only on a payment that is found with the status SUCCESS and a balance,
-- in an order group in the situation ORDER_PAYMENT_COMPLETED; it asks Toss for the amount of the
-- request, and its result is that of the transaction.
pub cancel-eq-ok :
    (toss_cancel : TossCancel) (clock : Clock) (id : ℕ) (amount : Option ℕ) (db : Db)
    {r : Payment × Db}
    → cancel toss_cancel clock id amount db ≡ ok r
    → (p : Payment) × (g : OrderGroup) × (toss : TossPayment) × IsRefundable is_completed id db p g
      × (toss_cancel p.payment_key amount ≡ ok toss)
      × (cancel_tx clock g toss p db ≡ ok r)
unfolding cancel
cancel-eq-ok toss_cancel clock id amount db h =
    let ((p, g), found, h1) = >>=-eq-ok (find_refundable is_completed id db) _ h in
    let (toss, asked, done) = >>=-eq-ok (toss_cancel p.payment_key amount) _ h1 in
    (p, g, toss, find_refundable-IsRefundable is_completed id db found, asked, done)

-- A return succeeds only on a payment that is found with the status SUCCESS and a balance above
-- the delivery fee, in an order group in the situation ORDER_SHIPPED; it asks Toss for exactly the
-- balance less the delivery fee, and its result is that of the transaction.
pub return_goods-eq-ok :
    (toss_cancel : TossCancel) (clock : Clock) (id : ℕ) (db : Db) {r : Payment × Db}
    → return_goods toss_cancel clock id db ≡ ok r
    → (p : Payment) × (g : OrderGroup) × (toss : TossPayment) × IsRefundable is_shipped id db p g
      × (g.delivery_fee < p.balance_amount)
      × (toss_cancel p.payment_key (some (p.balance_amount - g.delivery_fee)) ≡ ok toss)
      × (return_tx clock g toss p db ≡ ok r)
unfolding return_goods
return_goods-eq-ok toss_cancel clock id db h =
    let ((p, g), found, h1) = >>=-eq-ok (find_refundable is_shipped id db) _ h in
    let (_, enough, h2) = >>=-eq-ok (throw_if (leb p.balance_amount g.delivery_fee) _) _ h1 in
    let (toss, asked, done) = >>=-eq-ok (toss_cancel p.payment_key _) _ h2 in
    (p, g, toss, find_refundable-IsRefundable is_shipped id db found, ground arith, asked, done)

-- The checks refuse with a "bad request" whatever is not refundable, without asking Toss.
find_refundable_refuses :
    (allowed : OrderSituation → Bool) (id : ℕ) (db : Db) {p : Payment} {g : OrderGroup}
    → find_payment id db.payments ≡ some p
    → db.order_groups p.order_group_number ≡ some g
    → ¬ ((allowed g.situation ≡ true) × (is_success p.status ≡ true) × (0 < p.balance_amount))
    → (r : Reason) × (find_refundable allowed id db ≡ err (bad_request r))
unfolding find_refundable
find_refundable_refuses allowed id db {p} {g} fp fg no_refund =
    elim (Bool-cases (allowed g.situation)) [
      | inr e ↦ (situation_not_allowed, rw (fp, fg, e))
      | inl a ↦ elim (Bool-cases (is_success p.status)) [
        | inr e ↦ (only_successful_payments, rw (fp, fg, a, e))
        | inl b ↦ elim (Bool-cases (p.balance_amount == 0)) [
          | inl e ↦ (no_balance, rw (fp, fg, a, b, e))
          | inr c ↦ absurd (no_refund (a, b, ground arith))
        ]
      ]
    ]

-- A cancellation of a payment that is found is refused, with a "bad request" and nothing changed,
-- unless its order group is in the situation ORDER_PAYMENT_COMPLETED, its status is SUCCESS and it
-- has a balance; whatever Toss would answer.
pub cancel_payment_refuses :
    (toss_cancel : TossCancel) (clock : Clock) (id : ℕ) (amount : Option ℕ) (w : World)
    {p : Payment} {g : OrderGroup}
    → find_payment id w.db.payments ≡ some p
    → w.db.order_groups p.order_group_number ≡ some g
    → ¬ ((is_completed g.situation ≡ true) × (is_success p.status ≡ true) × (0 < p.balance_amount))
    → (r : Reason) × (cancel_payment toss_cancel clock id amount w ≡ (err (bad_request r), w))
unfolding cancel_payment cancel
cancel_payment_refuses toss_cancel clock id amount w fp fg no_refund =
    let (r, e) = find_refundable_refuses is_completed id w.db fp fg no_refund in (r, rw e)

-- A return likewise, where the situation that allows it is ORDER_SHIPPED.
pub return_payment_refuses :
    (toss_cancel : TossCancel) (clock : Clock) (id : ℕ) (w : World) {p : Payment} {g : OrderGroup}
    → find_payment id w.db.payments ≡ some p
    → w.db.order_groups p.order_group_number ≡ some g
    → ¬ ((is_shipped g.situation ≡ true) × (is_success p.status ≡ true) × (0 < p.balance_amount))
    → (r : Reason) × (return_payment toss_cancel clock id w ≡ (err (bad_request r), w))
unfolding return_payment return_goods
return_payment_refuses toss_cancel clock id w fp fg no_refund =
    let (r, e) = find_refundable_refuses is_shipped id w.db fp fg no_refund in (r, rw e)
