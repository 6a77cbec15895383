-- ===== src/Payment/Refund/Closed.antt =====
-- The effects of a cancellation and of a return together, and that both close the order group.
use mathlib.Core.Option
use lif_low_backend.Prelude.{
  ℕ, ◌-◌, ◌<◌, ◌≡◌, refl, Bool, false, Option, some, List, [], ◌∷◌, All, arith, ◌==◌, ==_iff,
  if◌then◌else◌, sym, ◌∙◌, subst,
}
use lif_low_backend.Schema.{
  OrderGroup, OrderSituation, order_cancelled, order_returned, is_completed, is_shipped, Payment,
  Db, ok, err, bad_request, situation_not_allowed,
}
use lif_low_backend.Stock.{raise_stock}
use lif_low_backend.Stock.Laws.{ordered}
use lif_low_backend.Points.Laws.{refund, sums_of}
use lif_low_backend.Membership.{Clock}
use lif_low_backend.Membership.Laws.{balances}
use lif_low_backend.Payment.Toss.{TossPayment}
use lif_low_backend.Payment.Confirm.{orders_of, World}
use lif_low_backend.Payment.Refund.{
  find_payment, points_of, refunded, with_situation, is_issued_by, cancel_tx, return_tx, TossCancel,
  cancel, return_goods, cancel_payment, return_payment, find_refundable,
}
use lif_low_backend.Payment.Refund.Guards.{IsRefundable, cancel-eq-ok, return_goods-eq-ok}
use lif_low_backend.Payment.Refund.Effects.{
  unpurchase, Refund, refund_tx-Refund, none_left, Refund-balances, Refund-products, Refund-groups,
  Refund-payment,
}

-- All that a refund leaves behind, in terms of the database before it.
pub record IsRefunded (s : OrderSituation) (p : Payment) (g : OrderGroup) (toss : TossPayment)
    (db : Db) (p' : Payment) (db' : Db) : Type 0 where
  pub payment_saved : find_payment p.id db'.payments ≡ some p'
  pub payment_is : p' ≡ refunded toss p
  pub groups_are :
      (j : ℕ)
      → db'.order_groups j ≡ (
          if j == p.order_group_number
          then Option.map (with_situation s) (db.order_groups j)
          else db.order_groups j)
  pub products_are :
      (k : ℕ)
      → db'.products k
        ≡ Option.map
            (raise_stock (ordered k (orders_of p.order_group_number db.orders)))
            (db.products k)
  pub balances_are :
      (k : ℕ)
      → Option.map balances (db'.users k)
        ≡ Option.map balances (
            Option.map (unpurchase k g) (
              Option.map
                (refund (sums_of k (points_of p.order_group_number db.points)))
                (db.users k)))
  pub coupons_gone : All (λ h. is_issued_by p.id h ≡ false) db'.coupon_histories

id-find_payment :
    (id : ℕ) (ps : List Payment) {p : Payment} → find_payment id ps ≡ some p → p.id ≡ id
id-find_payment id [] e = cc
id-find_payment id (x ∷ ps) {p} e = ground (arith, id-find_payment id ps {p = p}, ==_iff p.id id)

Refund-IsRefunded :
    (clock : Clock) (s : OrderSituation) (g : OrderGroup) (toss : TossPayment) (p : Payment)
    (db : Db) {p' : Payment} {db' : Db}
    → find_payment p.id db.payments ≡ some p
    → Refund clock s g toss p db p' db'
    → IsRefunded s p g toss db p' db'
Refund-IsRefunded clock s g toss p db f r = record {
  payment_saved = Refund-payment clock s g toss p db r f;
  payment_is = r.saved;
  groups_are = Refund-groups clock s g toss p db r;
  products_are = Refund-products clock s g toss p db r;
  balances_are = Refund-balances clock s g toss p db r;
  coupons_gone = rw r.histories (none_left p.id db.coupon_histories);
}

found_by_id :
    (allowed : OrderSituation → Bool) (id : ℕ) (db : Db) {p : Payment} {g : OrderGroup}
    → IsRefundable allowed id db p g
    → find_payment p.id db.payments ≡ some p
found_by_id allowed id db {p} r =
    subst (λ j. find_payment j db.payments ≡ some p) (sym (id-find_payment id db.payments r.found))
      r.found

-- A cancellation that goes through was of a refundable payment, and leaves the order group in the
-- situation ORDER_CANCELLED, the payment as it was returned, every stock, every user's balances
-- and the coupons as `IsRefunded` states.
pub cancel-IsRefunded :
    (toss_cancel : TossCancel) (clock : Clock) (id : ℕ) (amount : Option ℕ) (db : Db) {p' : Payment}
    {db' : Db}
    → cancel toss_cancel clock id amount db ≡ ok (p', db')
    → (p : Payment) × (g : OrderGroup) × (toss : TossPayment) × IsRefundable is_completed id db p g
      × (toss_cancel p.payment_key amount ≡ ok toss)
      × IsRefunded order_cancelled p g toss db p' db'
unfolding cancel_tx
cancel-IsRefunded toss_cancel clock id amount db h =
    let (p, g, toss, fine, asked, done) = cancel-eq-ok toss_cancel clock id amount db h in
    (
      p,
      g,
      toss,
      fine,
      asked,
      Refund-IsRefunded clock order_cancelled g toss p db (found_by_id is_completed id db fine)
          (refund_tx-Refund clock order_cancelled g toss p db done),
    )

-- A return that goes through was of a refundable payment with a balance above the delivery fee,
-- asked Toss for exactly the balance less that fee, and leaves the order group in the situation
-- ORDER_RETURNED and all else as `IsRefunded` states.
pub return_goods-IsRefunded :
    (toss_cancel : TossCancel) (clock : Clock) (id : ℕ) (db : Db) {p' : Payment} {db' : Db}
    → return_goods toss_cancel clock id db ≡ ok (p', db')
    → (p : Payment) × (g : OrderGroup) × (toss : TossPayment) × IsRefundable is_shipped id db p g
      × (g.delivery_fee < p.balance_amount)
      × (toss_cancel p.payment_key (some (p.balance_amount - g.delivery_fee)) ≡ ok toss)
      × IsRefunded order_returned p g toss db p' db'
unfolding return_tx
return_goods-IsRefunded toss_cancel clock id db h =
    let (p, g, toss, fine, enough, asked, done) = return_goods-eq-ok toss_cancel clock id db h in
    (
      p,
      g,
      toss,
      fine,
      enough,
      asked,
      Refund-IsRefunded clock order_returned g toss p db (found_by_id is_shipped id db fine)
          (refund_tx-Refund clock order_returned g toss p db done),
    )

refuses_closed :
    (allowed : OrderSituation → Bool) (id : ℕ) (db : Db) {q : Payment} {g : OrderGroup}
    → find_payment id db.payments ≡ some q
    → db.order_groups q.order_group_number ≡ some g
    → allowed g.situation ≡ false
    → find_refundable allowed id db ≡ err (bad_request situation_not_allowed)
unfolding find_refundable
refuses_closed allowed id db f e n = rw (f, e, n)

closed_group :
    (s : OrderSituation) (p : Payment) (g : OrderGroup) (toss : TossPayment) (db : Db)
    {p' : Payment} {db' : Db}
    → IsRefunded s p g toss db p' db'
    → db.order_groups p.order_group_number ≡ some g
    → db'.order_groups p'.order_group_number ≡ some (with_situation s g)
closed_group s p g toss db r e = rw (r.payment_is) (
    r.groups_are p.order_group_number
    ∙ rw ((==_iff p.order_group_number p.order_group_number).1 refl, e))

-- A cancellation closes the order group: whatever payment of that group is then asked to be
-- cancelled or returned, the request is refused and nothing changes, so no refund is made twice.
pub cancel_closes :
    (toss_cancel : TossCancel) (clock : Clock) (id : ℕ) (amount : Option ℕ) (db : Db) {p' : Payment}
    (w : World)
    → cancel toss_cancel clock id amount db ≡ ok (p', w.db)
    → (ask : TossCancel) (later : Clock) (id' : ℕ) (amount' : Option ℕ) {q : Payment}
    → find_payment id' w.db.payments ≡ some q
    → q.order_group_number ≡ p'.order_group_number
    → (cancel_payment ask later id' amount' w ≡ (err (bad_request situation_not_allowed), w))
      × (return_payment ask later id' w ≡ (err (bad_request situation_not_allowed), w))
unfolding cancel_payment cancel return_payment return_goods
cancel_closes toss_cancel clock id amount db w h ask later id' amount' {q} f same =
    let (p, g, toss, fine, _, r) = cancel-IsRefunded toss_cancel clock id amount db h in
    let closed : w.db.order_groups q.order_group_number ≡ some (with_situation order_cancelled g) =
      rw same (closed_group order_cancelled p g toss db r fine.group_found) in
    (
      rw (refuses_closed is_completed id' w.db f closed refl),
      rw (refuses_closed is_shipped id' w.db f closed refl),
    )
