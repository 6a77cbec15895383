-- ===== src/Payment/Initiate/Promise.antt =====
-- What an initiated payment promises of its amounts and of its orders.
use lif_low_backend.Prelude.{
  contains, is_empty, ℕ, ◌+◌, ◌≤◌, ◌<◌, pos, ◌≤ℤ◌, ◌≡◌, refl, Bool, true, false, not, ◌&&◌, none,
  some, List, ◌++◌, arith, ◌==◌, ==_iff, if◌then◌else◌, get_or, All, filter, length, ap, sym, ◌∙◌,
  Option-cases, inl, inr,
}
use lif_low_backend.Schema.{
  User, CartItem, is_active, Coupon, OrderGroup, order_payment_pending, Db, Table, put, ok,
  >>=-eq-ok, or_throw, or_throw-eq-ok, throw_if, throw_if-eq-ok, ok-injective, p2002,
}
use lif_low_backend.Payment.Confirm.{minimum_amount}
use lif_low_backend.Payment.Pricing.{
  check_points, check_stock, original_amount, coupons_of, coupon_discount, effective_fee,
  final_amount_of,
}
use lif_low_backend.Payment.Pricing.Amounts.{
  final_amount_of-eq-ok, check_points-eq-ok, HasStock, check_stock-HasStock,
}
use lif_low_backend.Payment.Initiate.{
  InitiateRequest, Amounts, unique_number, group_of, create_tx, price, check_address, initiate_cart,
}
use lif_low_backend.Payment.Initiate.Orders.{IsOrdered, create_orders-IsOrdered}

-- The active items that a request names.
abbrev pub items_of : List ℕ → List CartItem → List CartItem
items_of ids = filter λ i. contains i.id ids && is_active i.status

-- What holds of the amounts.
pub record IsPriced (req : InitiateRequest) (items : List CartItem) (coupons : List Coupon)
    (a : Amounts) : Type 0 where
  pub original_is : a.original ≡ original_amount items
  pub discount_is :
      a.discount ≡ coupon_discount req.coupons (original_amount items) coupons + get_or req.points 0
  pub fee_is : a.fee ≡ effective_fee (get_or req.delivery_fee 0) coupons
  pub balanced : a.final + a.discount ≡ a.original + a.fee
  pub enough : minimum_amount ≤ a.final

-- The amounts of a request that is priced.
pub price-IsPriced :
    (req : InitiateRequest) (coupons : List Coupon) (items : List CartItem) {a : Amounts}
    → price req coupons items ≡ ok a
    → IsPriced req items coupons a
unfolding price
price-IsPriced req coupons items h =
    let (final, e, done) =
      >>=-eq-ok
        (final_amount_of (original_amount items)
          (coupon_discount req.coupons (original_amount items) coupons + get_or req.points 0)
          (effective_fee (get_or req.delivery_fee 0) coupons) minimum_amount)
        _ h in
    let (balanced, enough) = final_amount_of-eq-ok _ _ _ _ e in
    let same = ok-injective done in
    rw (← same) record {
      original_is = refl;
      discount_is = refl;
      fee_is = refl;
      balanced = balanced;
      enough = enough;
    }

-- What the new order group holds: the amounts, the user who asked, the points and the items, and
-- no payment yet.
pub record IsPending (req : InitiateRequest) (a : Amounts) (item_ids : List ℕ) (g : OrderGroup)
    : Type 0 where
  pub situation : g.situation ≡ order_payment_pending
  pub orderer : g.orderer_id ≡ some req.user_id
  pub original : g.original_amount ≡ a.original
  pub discount : g.discount_amount ≡ a.discount
  pub final : g.final_amount ≡ a.final
  pub fee : g.delivery_fee ≡ a.fee
  pub points : g.points_used ≡ get_or req.points 0
  pub items : g.cart_item_ids ≡ item_ids
  pub no_payment : g.payment_id ≡ none

pub group_of-IsPending :
    (req : InitiateRequest) (a : Amounts) (item_ids : List ℕ)
    → IsPending req a item_ids (group_of req a item_ids)
group_of-IsPending req a item_ids = record {
  situation = refl;
  orderer = refl;
  original = refl;
  discount = refl;
  final = refl;
  fee = refl;
  points = refl;
  items = refl;
  no_payment = refl;
}

-- What an initiated payment leaves behind.
pub record IsInitiated (req : InitiateRequest) (item_ids : List ℕ) (group : ℕ) (a : Amounts)
    (db db' : Db) : Type 0 where
  pub priced : IsPriced req (items_of item_ids db.cart_items) (coupons_of req.coupons db.coupons) a
  pub found_all : length (items_of item_ids db.cart_items) ≡ length item_ids
  pub in_stock : All (HasStock db.products) (items_of item_ids db.cart_items)
  pub points_enough :
      (u : User)
      → db.users req.user_id ≡ some u
      → 0 < get_or req.points 0
      → pos (get_or req.points 0) ≤ℤ get_or u.available_points (pos 0)
  pub number_free : db.order_groups group ≡ none
  pub group_pending : IsPending req a item_ids (group_of req a item_ids)
  pub groups_are :
      (j : ℕ)
      → db'.order_groups j
        ≡ (if j == group then some (group_of req a item_ids) else db.order_groups j)
  pub ordered_all :
      IsOrdered group
        (items_of item_ids db.cart_items)
        (record db { order_groups = db'.order_groups })
        db'

not-eq-false : (b : Bool) → not b ≡ false → b ≡ true
not-eq-false b h = ground arith

-- The transaction makes the group and the orders.
pub create_tx-IsOrdered :
    (req : InitiateRequest) (group : ℕ) (a : Amounts) (item_ids : List ℕ) (coupons : List Coupon)
    (items : List CartItem) (db : Db) {db' : Db}
    → create_tx req group a item_ids coupons items db ≡ ok db'
    → (db.order_groups group ≡ none)
      × (db'.order_groups ≡ put group (group_of req a item_ids) db.order_groups)
      × IsOrdered group items (record db { order_groups = db'.order_groups }) db'
unfolding create_tx
create_tx-IsOrdered req group a item_ids coupons items db {db'} h =
    let (_, free, made) =
      >>=-eq-ok (throw_if (elim (db.order_groups group) [ none ↦ false | some _ ↦ true ]) p2002) _
        h in
    let with_group : Db = record db {
      order_groups = put group (group_of req a item_ids) db.order_groups;
    } in
    let r = create_orders-IsOrdered group coupons req.coupons items with_group made in
    let groups : db'.order_groups ≡ put group (group_of req a item_ids) db.order_groups =
      ap (λ d. d.order_groups) r.others in
    (
      free_number free,
      groups,
      record {
        quantities = r.quantities;
        amounts = r.amounts;
        added = r.added;
        are_of_group = r.are_of_group;
        others =
            r.others
            ∙ ap {A = Table OrderGroup} {B = Db}
                (λ t. record db {
                  order_groups = t;
                  orders = r.added ++ db.orders;
                  last_id = length items + db.last_id;
                })
                (sym groups);
      },
    )
  where
    free_number :
        throw_if (elim (db.order_groups group) [ none ↦ false | some _ ↦ true ]) p2002 ≡ ok tt
        → db.order_groups group ≡ none
    free_number q = elim (Option-cases (db.order_groups group)) [
      | inl e ↦ e
      | inr (g, e) ↦ absurd (taken (rw e at q))
    ]
      where
        taken : throw_if true p2002 ≡ ok tt → ⊥
        taken q = cc

-- A payment that is initiated for cart items has found every item that it names, active and in
-- stock, has points to cover those that it uses, and comes to at least the minimum amount, with
-- final amount and discount together equal to the original amount and the delivery fee. It makes
-- one pending order group under a number that was free, with just those amounts and the user who
-- asked, and orders that hold just the items, all of that group; the orders that were there stay,
-- and nothing else of the database changes but the last identifier.
pub initiate_cart-IsInitiated :
    (draw : ℕ → ℕ) (req : InitiateRequest) (address : ℕ) (item_ids : List ℕ) (db : Db) {group : ℕ}
    {a : Amounts} {db' : Db}
    → initiate_cart draw req address item_ids db ≡ ok (group, a, db')
    → IsInitiated req item_ids group a db db'
unfolding initiate_cart
initiate_cart-IsInitiated draw req address item_ids db {group} {a} {db'} h =
    let items = items_of item_ids db.cart_items in
    let coupons = coupons_of req.coupons db.coupons in
    let points = get_or req.points 0 in
    let (u, eu, h1) = >>=-eq-ok (or_throw (db.users req.user_id) _) _ h in
    let (_, ep, h2) = >>=-eq-ok (check_points u.available_points points) _ h1 in
    let (_, _, h3) = >>=-eq-ok (throw_if (is_empty item_ids) _) _ h2 in
    let (_, _, h4) = >>=-eq-ok (throw_if (is_empty items) _) _ h3 in
    let (_, el, h5) = >>=-eq-ok (throw_if (not (length items == length item_ids)) _) _ h4 in
    let (_, es, h6) = >>=-eq-ok (check_stock db.products items) _ h5 in
    let (b, eb, h7) = >>=-eq-ok (price req coupons items) _ h6 in
    let (group', _, h8) = >>=-eq-ok (unique_number 10 draw db.order_groups) _ h7 in
    let (_, _, h9) = >>=-eq-ok (or_throw (db.cart_of req.user_id) _) _ h8 in
    let (_, _, h10) = >>=-eq-ok (check_address db.address_owner req.user_id address) _ h9 in
    let (db'', et, done) = >>=-eq-ok (create_tx req group' b item_ids coupons items db) _ h10 in
    let q = ok-injective done in
    let made : create_tx req group a item_ids coupons items db ≡ ok db' =
      ap (λ r. create_tx req r.0 r.1 item_ids coupons items db) (sym q) ∙ et ∙ ap (λ r. ok r.2) q in
    let (free, groups, orders) = create_tx-IsOrdered req group a item_ids coupons items db made in
    record {
      priced = price-IsPriced req coupons items (eb ∙ ap (λ r. ok r.1) q);
      found_all =
          (==_iff (length items) (length item_ids)).0 (not-eq-false _ (throw_if-eq-ok _ _ el));
      in_stock = check_stock-HasStock db.products items es;
      points_enough = λ v ev some_points.
          check_points-eq-ok v.available_points points
            (rw (sym (same_user u v (or_throw-eq-ok _ _ eu) ev)) ep) some_points;
      number_free = free;
      group_pending = group_of-IsPending req a item_ids;
      groups_are = λ j. ap (λ t. t j) groups;
      ordered_all = orders;
    }
  where
    same_user : (u v : User) → db.users req.user_id ≡ some u → db.users req.user_id ≡ some v → u ≡ v
    same_user u v e f = cc
