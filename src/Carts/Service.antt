-- ===== src/Carts/Service.antt =====
-- The operations of src/modules/carts/services/cart.service.ts that change state. A user has one
-- cart at most. The operations outside a transaction return the database along with their result.
pub mod Steps
pub mod Totals
pub mod CheckOut
use lif_low_backend.Prelude.{
  ℕ, suc, Bool, true, false, not, ◌&&◌, Option, none, some, List, [], ◌∷◌, ◌==◌, if◌then◌else◌,
  filter, any, is_some_of, map, is_empty,
}
use lif_low_backend.Schema.{
  CartItem, CartItemStatus, checked_out, is_active, Db, Table, put, Result, ok, err, ◌>>=◌, ◌>>◌,
  or_throw, throw_if, update, Error, not_found, bad_request, conflict, p2002, p2003, p2025,
  cart_not_found, cart_exists, invalid_cart, cart_empty, no_active_items, default_message,
}
use lif_low_backend.Carts.{recalculate_cart_total}
use lif_low_backend.Carts.Items.{add_item, is_in}

-- `handleError` of the cart service.
pub handle_cart_error : Error → Error
handle_cart_error (not_found r) = not_found r
handle_cart_error (bad_request r) = bad_request r
handle_cart_error p2002 = conflict cart_exists
handle_cart_error p2025 = not_found cart_not_found
handle_cart_error p2003 = bad_request invalid_cart
handle_cart_error _ = bad_request default_message

abbrev pub cart_handled {ℓ} : {V : Type ℓ} → Result V → Result V
cart_handled (ok v) = ok v
cart_handled (err e) = err (handle_cart_error e)

-- `cartRepository.create`, which connects the user.
unfoldable pub new_cart : ℕ → Db → Result (ℕ × Db)
new_cart user_id db = or_throw (db.users user_id) p2025 >>= λ _.
    let id = suc db.last_id in
    ok (
      id,
      record db { carts = put id 0 db.carts; cart_of = put user_id id db.cart_of; last_id = id },
    )

-- The cart of the user, made if there is none.
unfoldable pub find_or_create : ℕ → Db → Result (ℕ × Db)
find_or_create user_id db = elim (db.cart_of user_id) [
  | some id ↦ ok (id, db)
  | none ↦ new_cart user_id db
]

abbrev pub create_cart : ℕ → Db → Result (ℕ × Db)
create_cart user_id db = cart_handled (find_or_create user_id db)

-- `addItem` and `calculateCartTotal`, of which the first may have been done when the second fails.
unfoldable pub add_and_calculate : ℕ → ℕ → ℕ → Db → Db × Result (Unit {0})
add_and_calculate cart_id product_id quantity db = elim (add_item cart_id product_id quantity db) [
  | err e ↦ (db, err e)
  | ok db1 ↦ elim (recalculate_cart_total cart_id db1) [
    | err e ↦ (db1, err (handle_cart_error e))
    | ok db2 ↦ (db2, ok tt)
  ]
]

unfoldable pub add_item_to_cart : ℕ → ℕ → ℕ → Db → Db × Result (Unit {0})
add_item_to_cart user_id product_id quantity db = elim (find_or_create user_id db) [
  | err e ↦ (db, err (handle_cart_error e))
  | ok r ↦ let done = add_and_calculate r.0 product_id quantity r.1 in (done.0, cart_handled done.1)
]

abbrev pub check_out : ℕ → CartItem → CartItem
check_out cart_id i =
    if is_in cart_id i && is_active i.status
    then record i { status = CartItemStatus.checked_out }
    else i

-- `checkoutCart`, which leaves the total of the cart alone.
unfoldable pub checkout_cart : ℕ → ℕ → Db → Result Db
checkout_cart cart_id now db =
    let items = filter (is_in cart_id) db.cart_items in
    cart_handled (
      or_throw (db.carts cart_id) (not_found cart_not_found) >>= λ _.
      throw_if (is_empty items) (bad_request cart_empty)
      >> throw_if (not (any (λ i. is_active i.status) items)) (bad_request no_active_items)
      >> ok (record db {
        cart_items = map (check_out cart_id) db.cart_items;
        checked_out_at = put cart_id now db.checked_out_at;
      }))

-- `clearCart`: the active items go.
unfoldable pub clear_cart : ℕ → Db → Result Db
clear_cart cart_id db = cart_handled (
    or_throw (db.carts cart_id) (not_found cart_not_found) >>= λ _.
    recalculate_cart_total cart_id (record db {
      cart_items = filter (λ i. not (is_in cart_id i && is_active i.status)) db.cart_items;
    }))

abbrev pub without : ℕ → Table ℕ → Table ℕ
without k t j = if j == k then none else t j

-- The column `user_id` without a cart.
abbrev pub without_owner : ℕ → Table ℕ → Table ℕ
without_owner cart_id t user = if is_some_of cart_id (t user) then none else t user

-- `deleteCart`: the items of the cart go with it.
unfoldable pub delete_cart : ℕ → Db → Result Db
delete_cart cart_id db = cart_handled (
    or_throw (db.carts cart_id) (not_found cart_not_found) >>= λ _. ok (record db {
      carts = without cart_id db.carts;
      cart_of = without_owner cart_id db.cart_of;
      checked_out_at = without cart_id db.checked_out_at;
      cart_items = filter (λ i. not (is_in cart_id i)) db.cart_items;
    }))

-- The unique column: another cart is the user's.
abbrev pub is_of_another : ℕ → Option ℕ → Bool
is_of_another cart_id none = false
is_of_another cart_id (some c) = not (c == cart_id)

-- `updateCart`, which can change the user of the cart only.
unfoldable pub update_cart : ℕ → Option ℕ → Db → Result Db
update_cart cart_id user db = cart_handled (
    or_throw (db.carts cart_id) (not_found cart_not_found) >>= λ _. elim user [
      | none ↦ ok db
      | some u ↦
          throw_if (is_of_another cart_id (db.cart_of u)) p2002
          >> (or_throw (db.users u) p2003 >>= λ _.
              ok (record db { cart_of = put u cart_id (without_owner cart_id db.cart_of) }))
    ])
