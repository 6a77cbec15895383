-- ===== src/Payment/Lifecycle.antt =====
-- A payment from its initiation to its cancellation.
use mathlib.Core.Option
use lif_low_backend.Prelude.{
  Bool, ℕ, ℤ, String, ◌≡◌, refl, Option, some, List, [], arith, ==_iff, ap, sym, ◌∙◌,
}
use lif_low_backend.Schema.{User, Payment, Db, ok}
use lif_low_backend.Stock.Laws.{ordered}
use lif_low_backend.Stock.RoundTrip.{raise_stock_quantity}
use lif_low_backend.Membership.{Clock}
use lif_low_backend.Membership.Laws.{balances}
use lif_low_backend.Payment.Toss.{TossPayment}
use lif_low_backend.Payment.Confirm.{ConfirmRequest, orders_of, confirm_tx, issue_reward}
use lif_low_backend.Payment.Refund.{points_of, TossCancel, cancel}
use lif_low_backend.Payment.Refund.Restored.{cancel-restores}
use lif_low_backend.Payment.Initiate.{InitiateRequest, Amounts, group_of, initiate_cart}
use lif_low_backend.Payment.Initiate.Orders.{wanted}
use lif_low_backend.Payment.Initiate.Promise.{items_of, initiate_cart-IsInitiated}

-- A payment that is initiated for cart items, confirmed and rewarded, and then cancelled, leaves
-- every user with the three balances from before the initiation, and every product with the stock
-- figure `origin` from before; `stockQuantity` ends higher by just the items of the request. The
-- conditions: no order and no point record had the new number, the user who asked pays and had a
-- balance of points, and Toss answered for that order.
pub initiate-confirm-cancel :
    (draw : ℕ → ℕ) (order : InitiateRequest) (address : ℕ) (item_ids : List ℕ) (db : Db) {group : ℕ}
    {a : Amounts} {db1 : Db} {u : User} {z : ℤ}
    → initiate_cart draw order address item_ids db ≡ ok (group, a, db1)
    → orders_of group db.orders ≡ []
    → points_of group db.points ≡ []
    → db.users order.user_id ≡ some u
    → u.available_points ≡ some z
    → (req : ConfirmRequest) (direct : Bool) (toss : TossPayment) (now : ℕ) {p : Payment}
      {level : Option String} {db2 : Db}
    → req.order_group_number ≡ group
    → toss.order_id ≡ group
    → confirm_tx req order.user_id direct toss now db1 ≡ ok (p, level, db2)
    → (toss_cancel : TossCancel) (clock : Clock) (amount : Option ℕ) {p' : Payment} {db3 : Db}
    → cancel toss_cancel clock p.id amount
        (issue_reward order.user_id p req.order_group_number level db2)
      ≡ ok (p', db3)
    → (k : ℕ)
    → (Option.map balances (db3.users k) ≡ Option.map balances (db.users k))
      × (db3.products k
          ≡ Option.map
              (raise_stock_quantity (wanted k (items_of item_ids db.cart_items)))
              (db.products k))
initiate-confirm-cancel draw order address item_ids db {group} {a} {db1} {u} {z} initiated no_orders
      no_points eu points req direct toss now number answered confirmed toss_cancel clock amount
      {p'} {db3} cancelled k =
    let i = initiate_cart-IsInitiated draw order address item_ids db initiated in
    let kept = i.ordered_all.others in
    let made : db1.order_groups req.order_group_number ≡ some (group_of order a item_ids) =
      rw number (i.groups_are group ∙ rw ((==_iff group group).1 refl) refl) in
    let fresh : points_of req.order_group_number db1.points ≡ [] =
      rw number (ap (λ d. points_of group d.points) kept ∙ no_points) in
    let (users, products) =
      cancel-restores req order.user_id direct toss now db1 confirmed (answered ∙ sym number) fresh
        made refl (ap (λ d. d.users order.user_id) kept ∙ eu) points toss_cancel clock amount
        cancelled k in
    let just_these : ordered k (orders_of req.order_group_number db1.orders)
        ≡ wanted k (items_of item_ids db.cart_items) =
      rw number (i.ordered_all.quantities k ∙ rw no_orders (omega arith)) in
    (
      users ∙ ap (λ d. Option.map balances (d.users k)) kept,
      products
          ∙ ap (λ n. Option.map (raise_stock_quantity n) (db1.products k)) just_these
          ∙ ap
              (λ d.
                Option.map (raise_stock_quantity (wanted k (items_of item_ids db.cart_items)))
                  (d.products k))
              kept,
    )
