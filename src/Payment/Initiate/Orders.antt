-- ===== src/Payment/Initiate/Orders.antt =====
-- The orders that `initiatePayment` makes of cart items.
use mathlib.Core.Path.{ap₂}
use mathlib.Core.List.{append_assoc}
use lif_low_backend.Prelude.{
  ℕ, suc, ◌+◌, ◌≡◌, refl, ap, sym, ◌∙◌, some, All, length, List, [], ◌∷◌, ◌++◌, arith, ◌==◌, ==_iff,
  if◌then◌else◌, get_or, sum_by,
}
use lif_low_backend.Schema.{
  CartItem, Coupon, Order, Db, ok, >>=-eq-ok, ok-injective, or_throw, p2025,
}
use lif_low_backend.Stock.Laws.{ordered}
use lif_low_backend.Coupons.{CouponEntry}
use lif_low_backend.Payment.Confirm.{orders_of}
use lif_low_backend.Payment.Pricing.{line_amount, original_amount}
use lif_low_backend.Payment.Initiate.{order_of, create_orders}

-- How many of product `k` the items hold, and what the orders come to before any discount.
abbrev pub wanted : ℕ → List CartItem → ℕ
wanted k = sum_by (λ (i : CartItem). if i.product_id == k then i.quantity else 0)

abbrev pub orders_amount : List Order → ℕ
orders_amount = sum_by (λ (o : Order). get_or o.total_order_amount 0)

-- What the loop adds to the database: orders of the group in front of those that are there, which
-- stay, with as many new identifiers as there are items; all else stays.
pub record IsOrdered (group : ℕ) (items : List CartItem) (db db' : Db) : Type 0 where
  pub quantities :
      (k : ℕ)
      → ordered k (orders_of group db'.orders)
        ≡ wanted k items + ordered k (orders_of group db.orders)
  pub amounts :
      orders_amount (orders_of group db'.orders)
      ≡ original_amount items + orders_amount (orders_of group db.orders)
  pub added : List Order
  pub are_of_group : All (λ (o : Order). o.order_group_number ≡ some group) added
  pub others : db' ≡ record db { orders = added ++ db.orders; last_id = length items + db.last_id }

All-snoc :
    (P : Order → Type 0) (os : List Order) (o : Order) → All P os → P o → All P (os ++ o ∷ [])
All-snoc P [] o a p = (p, tt)
All-snoc P (x ∷ os) o a p = (a.0, All-snoc P os o a.1 p)

-- What the loop does to the database but for the orders and the last identifier.
abbrev with_orders : Db → List Order → ℕ → Db
with_orders db orders last = record db { orders = orders; last_id = last }

one_more :
    (group id k : ℕ) (coupons : List Coupon) (es : List CouponEntry) (i : CartItem)
    (os : List Order)
    → ordered k (orders_of group (order_of id group coupons es i ∷ os))
      ≡ (if i.product_id == k then i.quantity else 0) + ordered k (orders_of group os)
one_more group id k coupons es i os = ground (arith, (==_iff group group).1 refl)

one_amount :
    (group id : ℕ) (coupons : List Coupon) (es : List CouponEntry) (i : CartItem) (os : List Order)
    → orders_amount (orders_of group (order_of id group coupons es i ∷ os))
      ≡ line_amount i + orders_amount (orders_of group os)
one_amount group id coupons es i os = rw ((==_iff group group).1 refl) refl

-- The orders of the group hold exactly the items, and come to their amount, on top of what orders
-- the group had; the loop adds orders and identifiers only.
pub create_orders-IsOrdered :
    (group : ℕ) (coupons : List Coupon) (es : List CouponEntry) (items : List CartItem) (db : Db)
    {db' : Db}
    → create_orders group coupons es items db ≡ ok db'
    → IsOrdered group items db db'
unfolding create_orders
create_orders-IsOrdered group coupons es [] db {db'} h =
    let same : db ≡ db' = ok-injective h in
    rw (← same) record {
      quantities = λ k. omega arith;
      amounts = omega arith;
      added = [];
      are_of_group = tt;
      others = ap (with_orders db db.orders) (omega arith);
    }
create_orders-IsOrdered group coupons es (i ∷ is) db h =
    let (_, _, rest) = >>=-eq-ok (or_throw (db.products i.product_id) p2025) _ h in
    let id = suc db.last_id in
    let next : Db = record db {
      orders = order_of id group coupons es i ∷ db.orders;
      last_id = id;
    } in
    let r = create_orders-IsOrdered group coupons es is next rest in
    record {
      quantities = λ k. omega (arith, r.quantities k, one_more group id k coupons es i db.orders);
      amounts = omega (arith, r.amounts, one_amount group id coupons es i db.orders);
      added = r.added ++ order_of id group coupons es i ∷ [];
      are_of_group = All-snoc _ r.added (order_of id group coupons es i) r.are_of_group refl;
      others =
          r.others
          ∙ ap₂ (with_orders db)
              (sym (append_assoc r.added (order_of id group coupons es i ∷ []) db.orders))
              (omega arith);
    }
