-- ===== src/Payment/Initiate.antt =====
-- `initiatePayment` and `initiatePaymentV2` in src/modules/payment/payment.service.ts: an order
-- group and its orders are made, to be paid.
--
-- The address of the request, the texts of an order, its number (a serial number in the group, and
-- the retry on a duplicate) and the URLs of the answer are left out: no later service reads them.
pub mod Orders
pub mod Promise
pub mod Failure
pub mod Direct
use mathlib.Core.Option
use lif_low_backend.Prelude.{
  contains, is_empty, ℕ, zero, suc, ◌+◌, ◌-◌, ◌*◌, ℤ, pos, ltb_ℤ, Bool, true, false, not, ◌&&◌,
  Option, none, some, List, [], ◌∷◌, ◌==◌, ltb, if◌then◌else◌, get_or, is_some_of, length, filter,
  find,
}
use lif_low_backend.Schema.{
  User, Product, CartItem, active, is_active, Coupon, Order, OrderGroup, order_payment_pending, Db,
  Table, put, Result, ok, err, ◌>>=◌, ◌>>◌, or_throw, throw_if, Error, not_found, bad_request,
  conflict, validation, internal, p2002, p2025, shipping_address_required, user_not_found,
  cart_item_required, no_active_cart_items, cart_items_unavailable, cart_not_found,
  address_not_found, address_of_another_user, no_unique_number, product_not_found,
  not_enough_quantity, invalid_sale_price, quantity_too_small, failed_to_initiate_payment,
}
use lif_low_backend.Coupons.{CouponEntry, discount_of}
use lif_low_backend.Carts.{remove_items}
use lif_low_backend.Payment.Confirm.{minimum_amount}
use lif_low_backend.Payment.Pricing.{
  check_points, check_stock, line_amount, original_amount, coupons_of, coupon_discount,
  effective_fee, final_amount_of,
}

-- The arguments that both services take.
pub record InitiateRequest : Type 0 where
  pub user_id : ℕ
  pub coupons : List CouponEntry
  pub address : Option ℕ
  pub points : Option ℕ
  pub delivery_fee : Option ℕ

-- The amounts of steps 5 to 7; both services answer them with the number of the order group.
pub record Amounts : Type 0 where
  pub original : ℕ
  pub discount : ℕ
  pub final : ℕ
  pub fee : ℕ

-- `generateOrderGroupNumberForTesting` and `generateUniqueOrderGroupNumber`: the first of so many
-- candidates that no order group has.
unfoldable pub unique_number : ℕ → (ℕ → ℕ) → Table OrderGroup → Result ℕ
unique_number zero draw groups = err (internal no_unique_number)
unique_number (suc left) draw groups =
    let later = unique_number left draw groups in
    elim (groups (draw left)) [ none ↦ ok (draw left) | some _ ↦ later ]

-- The loop over `couponIds` in step 10: here a coupon counts for each of its entries.
unfoldable pub line_discount : List Coupon → ℕ → List CouponEntry → ℕ
line_discount coupons total [] = 0
line_discount coupons total (e ∷ es) =
    let rest = line_discount coupons total es in
    elim (find (λ (c : Coupon). c.id == e.coupon_id) coupons) [
      | none ↦ rest
      | some c ↦ discount_of c total (get_or e.quantity 1) + rest
    ]

unfoldable pub line_coupons : List Coupon → List CouponEntry → List ℕ
line_coupons coupons [] = []
line_coupons coupons (e ∷ es) =
    let rest = line_coupons coupons es in
    elim (find (λ (c : Coupon). c.id == e.coupon_id) coupons) [ none ↦ rest | some c ↦ c.id ∷ rest ]

-- `Math.max(0, a - b)` is the subtraction of ℕ.
abbrev pub order_of : ℕ → ℕ → List Coupon → List CouponEntry → CartItem → Order
order_of id group coupons es i = record {
  id = id;
  order_group_number = some group;
  product_id = some i.product_id;
  quantity = some i.quantity;
  total_order_amount = some (line_amount i);
  total_payment_amount = some (line_amount i - line_discount coupons (line_amount i) es);
  discount_amount = line_discount coupons (line_amount i) es;
  coupon_used = line_coupons coupons es;
}

-- The loop of step 10, newest order first: `connect` wants the product to be there.
unfoldable pub create_orders : ℕ → List Coupon → List CouponEntry → List CartItem → Db → Result Db
create_orders group coupons es [] db = ok db
create_orders group coupons es (i ∷ is) db = do
  _ ← or_throw (db.products i.product_id) p2025
  let id = suc db.last_id
  create_orders group coupons es is
      (record db { orders = order_of id group coupons es i ∷ db.orders; last_id = id })

abbrev pub group_of : InitiateRequest → Amounts → List ℕ → OrderGroup
group_of req a item_ids = record {
  original_amount = a.original;
  discount_amount = a.discount;
  orderer_id = some req.user_id;
  situation = order_payment_pending;
  final_amount = a.final;
  points_used = get_or req.points 0;
  cart_item_ids = item_ids;
  delivery_fee = a.fee;
  payment_id = none;
  courier_company = none;
  invoice_number = none;
}

-- Step 10: the order group and its orders, in one transaction.
unfoldable pub create_tx :
    InitiateRequest → ℕ → Amounts → List ℕ → List Coupon → List CartItem → Db → Result Db
create_tx req group a item_ids coupons items db = do
  throw_if (elim (db.order_groups group) [ none ↦ false | some _ ↦ true ]) p2002
  create_orders group coupons req.coupons items
      (record db { order_groups = put group (group_of req a item_ids) db.order_groups })

-- Steps 5 to 7.
unfoldable pub price : InitiateRequest → List Coupon → List CartItem → Result Amounts
price req coupons items = do
  let original = original_amount items
  let discount = coupon_discount req.coupons original coupons + get_or req.points 0
  let fee = effective_fee (get_or req.delivery_fee 0) coupons
  final ← final_amount_of original discount fee minimum_amount
  ok (record { original = original; discount = discount; final = final; fee = fee })

-- Step 9.
unfoldable pub check_address : Table ℕ → ℕ → ℕ → Result (Unit {0})
check_address owner user_id address = do
  a ← or_throw (owner address) (not_found address_not_found)
  throw_if (not (a == user_id)) (bad_request address_of_another_user)

-- The `try` of `initiatePayment`: the number of the order group, and the amounts.
unfoldable pub initiate_cart :
    (ℕ → ℕ) → InitiateRequest → ℕ → List ℕ → Db → Result (ℕ × Amounts × Db)
initiate_cart draw req address item_ids db = do
  u ← or_throw (db.users req.user_id) (not_found user_not_found)
  check_points u.available_points (get_or req.points 0)
  throw_if (is_empty item_ids) (bad_request cart_item_required)
  let items = filter (λ i. contains i.id item_ids && is_active i.status) db.cart_items
  throw_if (is_empty items) (not_found no_active_cart_items)
  throw_if (not (length items == length item_ids)) (bad_request cart_items_unavailable)
  check_stock db.products items
  let coupons = coupons_of req.coupons db.coupons
  a ← price req coupons items
  group ← unique_number 10 draw db.order_groups
  _ ← or_throw (db.cart_of req.user_id) (not_found cart_not_found)
  check_address db.address_owner req.user_id address
  db' ← create_tx req group a item_ids coupons items db
  ok (group, a, db')

-- The product of a direct payment, as the one line of its order: a missing stock figure counts 0.
unfoldable pub line_of_product : ℕ → ℕ → Table Product → Result CartItem
line_of_product product_id quantity products = do
  p ← or_throw (products product_id) (not_found product_not_found)
  throw_if (ltb_ℤ (get_or p.origin (pos 0)) (pos quantity)) (bad_request not_enough_quantity)
  throw_if (get_or p.sale_price 0 == 0) (bad_request invalid_sale_price)
  ok (record {
    id = product_id;
    cart_id = 0;
    product_id = product_id;
    quantity = quantity;
    sale_price = get_or p.sale_price 0;
    status = active;
  })

-- The `try` of `initiatePaymentV2`.
unfoldable pub initiate_product :
    (ℕ → ℕ) → InitiateRequest → ℕ → ℕ → ℕ → Db → Result (ℕ × Amounts × Db)
initiate_product draw req address product_id quantity db = do
  u ← or_throw (db.users req.user_id) (not_found user_not_found)
  check_points u.available_points (get_or req.points 0)
  item ← line_of_product product_id quantity db.products
  let items = item ∷ []
  let coupons = coupons_of req.coupons db.coupons
  a ← price req coupons items
  group ← unique_number 5 draw db.order_groups
  check_address db.address_owner req.user_id address
  db' ← create_tx req group a (product_id ∷ []) coupons items db
  ok (group, a, db')

-- The end of the `catch`: only "not found" and "bad request" are thrown on as they are.
abbrev pub normalised : Error → Error
normalised (not_found r) = not_found r
normalised (bad_request r) = bad_request r
normalised _ = internal failed_to_initiate_payment

-- `initiatePayment`: after a failure the items of the request are removed from the cart.
pub initiate_payment : (ℕ → ℕ) → InitiateRequest → List ℕ → Db → Result (ℕ × Amounts) × Db
initiate_payment draw req item_ids db = elim req.address [
  | none ↦ (err (bad_request shipping_address_required), db)
  | some address ↦ elim (initiate_cart draw req address item_ids db) [
    | ok (group, a, db') ↦ (ok (group, a), db')
    | err e ↦ (err (normalised e), remove_items item_ids db)
  ]
]

-- `initiatePaymentV2`
unfoldable pub initiate_payment_v2 :
    (ℕ → ℕ) → InitiateRequest → ℕ → ℕ → Db → Result (ℕ × Amounts) × Db
initiate_payment_v2 draw req product_id quantity db = elim req.address [
  | none ↦ (err (bad_request shipping_address_required), db)
  | some address ↦
      if ltb quantity 1
      then (err (bad_request quantity_too_small), db)
      else elim (initiate_product draw req address product_id quantity db) [
        | ok (group, a, db') ↦ (ok (group, a), db')
        | err e ↦ (err (normalised e), db)
      ]
]
