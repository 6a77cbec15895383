-- ===== src/Carts.antt =====
-- The cart items in src/modules/carts/services/cart-item.service.ts, with the total that each cart
-- keeps of its active items. The table of carts holds that total.
--
-- The service also refuses an operation if `cart.status` is CHECKED_OUT; the model `Cart` of
-- prisma/schema.prisma has no such column, so that test never holds and is left out.
pub mod Items
pub mod Service
pub mod Changes
pub mod Totals
use lif_low_backend.Prelude.{
  ℕ, suc, ◌+◌, ◌*◌, Bool, true, false, not, ◌&&◌, Option, none, some, List, [], ◌∷◌, ◌==◌, ltb,
  if◌then◌else◌, find, filter, sum_by,
}
use lif_low_backend.Schema.{
  CartItem, CartItemStatus, active, checked_out, is_active, Db, Table, Result, ok, err, ◌>>=◌, ◌>>◌,
  or_throw, throw_if, update, not_found, bad_request, cart_item_not_found, cart_item_checked_out,
  quantity_too_small,
}

abbrev pub amount_in : ℕ → CartItem → ℕ
amount_in cart_id i =
    if i.cart_id == cart_id && is_active i.status then i.quantity * i.sale_price else 0

-- The `reduce` of `recalculateCartTotal`, over the active items of the cart.
abbrev pub cart_total : ℕ → List CartItem → ℕ
cart_total cart_id = sum_by (amount_in cart_id)

-- `recalculateCartTotal`
unfoldable pub recalculate_cart_total : ℕ → Db → Result Db
recalculate_cart_total cart_id db =
    update cart_id (λ _. cart_total cart_id db.cart_items) db.carts >>= λ carts.
    ok (record db { carts = carts })

unfoldable pub set_item : ℕ → (CartItem → CartItem) → List CartItem → List CartItem
set_item k f [] = []
set_item k f (i ∷ is) = if i.id == k then f i ∷ is else i ∷ set_item k f is

abbrev pub find_item : ℕ → List CartItem → Option CartItem
find_item k = find (λ (i : CartItem). i.id == k)

-- `removeItem`
unfoldable pub remove_item : ℕ → Db → Result Db
remove_item k db = do
  i ← or_throw (find_item k db.cart_items) (not_found cart_item_not_found)
  throw_if (not (is_active i.status)) (bad_request cart_item_checked_out)
  recalculate_cart_total i.cart_id
      (record db { cart_items = filter (λ x. not (x.id == k)) db.cart_items })

-- `updateItemQuantity`
unfoldable pub update_item_quantity : ℕ → ℕ → Db → Result Db
update_item_quantity k quantity db = do
  throw_if (ltb quantity 1) (bad_request quantity_too_small)
  i ← or_throw (find_item k db.cart_items) (not_found cart_item_not_found)
  throw_if (not (is_active i.status)) (bad_request cart_item_checked_out)
  recalculate_cart_total i.cart_id
      (record db { cart_items = set_item k (λ x. record x { quantity = quantity }) db.cart_items })

-- A loop that removes items one by one and only logs what fails.
pub remove_items : List ℕ → Db → Db
remove_items [] db = db
remove_items (k ∷ ks) db = elim (remove_item k db) [
  | ok db' ↦ remove_items ks db'
  | err _ ↦ remove_items ks db
]
