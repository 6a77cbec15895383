-- ===== src/Orders/Creation.antt =====
-- `create` in src/modules/order/order.service.ts: orders with their points and coupons, in one
-- transaction, outside a payment. The texts that are copied into an order are left out. The amount
-- after a rate, `Math.floor(total * (rate / 100))`, is computed in doubles and is an argument.
use mathlib.Core.Option
use lif_low_backend.Prelude.{
  ℕ, suc, pos, ◌+ℤ◌, ◌-ℤ◌, Bool, true, false, not, Option, none, some, List, [], ◌∷◌, ltb,
  if◌then◌else◌, sum_by, any,
}
use lif_low_backend.Schema.{
  User, Order, OrderGroup, order_payment_pending, Point, used_points, Db, put, Result, ok, err,
  ◌>>=◌, ◌>>◌, or_throw, throw_if, update, Error, not_found, bad_request, internal, p2002, p2003,
  p2025, p1001, other_database_error, user_not_found, order_not_found, not_unique_field,
  invalid_data, database_connection, failed_to_create_order,
}
use lif_low_backend.Orders.Redemption.{use_order_coupons}
use lif_low_backend.Orders.Numbers.{Numbers, is_taken, generate_unique_order_number}

-- `CreateOrderDto`; the number is the serial, if one is given.
pub record CreateOrder : Type 0 where
  pub serial : Option ℕ
  pub cart_id : ℕ
  pub product_id : Option ℕ
  pub quantity : ℕ
  pub total_order_amount : ℕ
  pub total_payment_amount : ℕ
  pub discount_amount : ℕ

abbrev pub purchase_total : List CreateOrder → ℕ
purchase_total = sum_by λ (o : CreateOrder). o.total_payment_amount

-- The rows of the transaction: the database with the order numbers.
abbrev pub Rows : Type 0
Rows = Db × Numbers

abbrev pub new_group : List CreateOrder → ℕ → OrderGroup
new_group orders points = record {
  original_amount = sum_by (λ (o : CreateOrder). o.total_order_amount) orders;
  discount_amount = 0;
  orderer_id = none;
  situation = order_payment_pending;
  final_amount = purchase_total orders;
  points_used = points;
  cart_item_ids = [];
  delivery_fee = 0;
  payment_id = none;
  courier_company = none;
  invoice_number = none;
}

-- The order group, made if it is not there.
abbrev pub with_group : ℕ → List CreateOrder → ℕ → Db → Db
with_group group orders points db = elim (db.order_groups group) [
  | some _ ↦ db
  | none ↦ record db { order_groups = put group (new_group orders points) db.order_groups }
]

abbrev pub has_product : Option ℕ → Db → Bool
has_product none db = true
has_product (some k) db = elim (db.products k) [ none ↦ false | some _ ↦ true ]

abbrev pub new_order : ℕ → ℕ → List ℕ → CreateOrder → Order
new_order id group coupon_ids o = record {
  id = id;
  order_group_number = some group;
  product_id = o.product_id;
  quantity = some o.quantity;
  total_order_amount = some o.total_order_amount;
  total_payment_amount = some o.total_payment_amount;
  discount_amount = o.discount_amount;
  coupon_used = coupon_ids;
}

-- The number of an order: a new one is looked for outside the transaction, in the rows that are
-- committed.
abbrev pub serial_of : ℕ → Numbers → CreateOrder → Result ℕ
serial_of group committed o = elim o.serial [
  | some n ↦ ok n
  | none ↦ generate_unique_order_number 5 group committed
]

-- The relations of an order that the data of `tx.order.create` connects. The identifier of the user
-- is given, since the user was found by it.
pub data OrderRelation : Type 0 where
  to_cart to_order_group to_user to_product : OrderRelation

abbrev pub connected : CreateOrder → List OrderRelation
connected o =
    to_cart ∷ to_order_group ∷ to_user ∷ elim o.product_id [ none ↦ [] | some _ ↦ to_product ∷ [] ]

-- The relations of the model Order, which has none to a user.
abbrev pub is_relation_of_order : OrderRelation → Bool
is_relation_of_order to_cart = true
is_relation_of_order to_order_group = true
is_relation_of_order to_user = false
is_relation_of_order to_product = true

-- `tx.order.create`: data with an unknown relation is refused by the client of the database, with an
-- error that has no code; the cart and the product are connected, and the number is unique.
abbrev pub insert_order : ℕ → List ℕ → CreateOrder → ℕ → Rows → Result Rows
insert_order group coupon_ids o serial (db, numbers) =
    throw_if (any (λ r. not (is_relation_of_order r)) (connected o)) other_database_error
    >> or_throw (db.carts o.cart_id) p2025
    >>= λ _.
        throw_if (not (has_product o.product_id db)) p2025
        >> throw_if (is_taken group serial numbers) p2002
        >> ok (
          record db {
            orders = new_order (suc db.last_id) group coupon_ids o ∷ db.orders;
            last_id = suc db.last_id;
          },
          (group, serial) ∷ numbers,
        )

unfoldable pub insert_orders : ℕ → List ℕ → Numbers → List CreateOrder → Rows → Result Rows
insert_orders group coupon_ids committed [] s = ok s
insert_orders group coupon_ids committed (o ∷ os) s = serial_of group committed o >>= λ serial.
    insert_order group coupon_ids o serial s >>= insert_orders group coupon_ids committed os

-- The record of the points: what was used stands as the balance, and nothing as the deduction.
abbrev pub order_point : ℕ → ℕ → ℕ → Point
order_point user_id group points = record {
  user_id = some user_id;
  order_group_number = some group;
  points_type = used_points;
  membership_level = none;
  available_points_increase = none;
  available_points_deduction = none;
  available_points_balance = some (pos points);
}

abbrev pub add_order_point : ℕ → ℕ → ℕ → Db → Db
add_order_point user_id group points db =
    if ltb 0 points then record db { points = order_point user_id group points ∷ db.points } else db

abbrev pub take_points : ℕ → ℕ → User → User
take_points points total u = record u {
  available_points = Option.map (λ z. z -ℤ pos points) u.available_points;
  total_used_points = Option.map (λ z. z +ℤ pos points) u.total_used_points;
  total_purchase_amount = Option.map (λ z. z +ℤ pos total) u.total_purchase_amount;
}

-- `createdOrders[0]?.id`: identifiers are counted up, so it is the first after the last.
abbrev pub first_order_id : List CreateOrder → Db → Option ℕ
first_order_id [] db = none
first_order_id (_ ∷ _) db = some (suc db.last_id)

module _ (after_rate : ℕ → ℕ → ℕ) where
  unfoldable pub create_orders_tx : List CreateOrder → ℕ → ℕ → List ℕ → ℕ → ℕ → Rows → Result Rows
  create_orders_tx orders points user_id coupon_ids group now (db, numbers) =
      insert_orders group coupon_ids numbers orders (with_group group orders points db, numbers)
      >>= λ s. update user_id (take_points points (purchase_total orders)) s.0.users >>= λ users.
          use_order_coupons after_rate user_id (first_order_id orders db) (purchase_total orders)
            now coupon_ids (record (add_order_point user_id group points s.0) { users = users })
          >>= λ db'. ok (db', s.1)

  -- `handlePrismaError`
  abbrev pub normalise_order_error : Error → Error
  normalise_order_error (not_found order_not_found) = not_found order_not_found
  normalise_order_error p2002 = bad_request not_unique_field
  normalise_order_error p2003 = bad_request invalid_data
  normalise_order_error p2025 = not_found order_not_found
  normalise_order_error p1001 = internal database_connection
  normalise_order_error _ = internal failed_to_create_order

  abbrev pub caught : {A : Type 0} → Result A → Result A
  caught (ok a) = ok a
  caught (err e) = err (normalise_order_error e)

  -- `group` is the number of the request, or the new number that was generated.
  unfoldable pub create : List CreateOrder → ℕ → ℕ → List ℕ → ℕ → ℕ → Rows → Result Rows
  create orders points user_id coupon_ids group now (db, numbers) = caught (
      or_throw (db.users user_id) (bad_request user_not_found) >>= λ _.
      create_orders_tx orders points user_id coupon_ids group now (db, numbers))
