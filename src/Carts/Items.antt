-- ===== src/Carts/Items.antt =====
-- The rest of src/modules/carts/services/cart-item.service.ts that changes state: `addItem`,
-- `updateItem`, `bulkUpdateItems` and `clearItemsByCartId`, with the errors of `handleError`. The
-- event that `addItem` sends is left out.
pub mod Kept
pub mod Totals
pub mod Bulk
pub mod Effects
use lif_low_backend.Prelude.{
  ℕ, suc, ◌+◌, Bool, true, false, not, ◌&&◌, ◌||◌, Option, none, some, List, [], ◌∷◌, ◌==◌, ltb,
  map, if◌then◌else◌, get_or, find, filter, any, contains, is_empty, length, unique,
}
use lif_low_backend.Schema.{
  Text, is_space, is_blank_text, CartItem, CartItemStatus, active, is_active, Product, Db, Table,
  put, Result, ok, err, ◌>>=◌, ◌>>◌, or_throw, throw_if, update, Error, not_found, bad_request,
  conflict, p2002, p2003, p2025, cart_not_found, cart_item_not_found, cart_item_checked_out,
  quantity_too_small, product_not_found, product_not_available, no_sale_price, cart_item_exists,
  invalid_cart_item, empty_items, cart_checked_out, cart_has_checked_out_items, default_message,
}
use lif_low_backend.Carts.{recalculate_cart_total, set_item, find_item}

-- `handleError`
pub handle_error : Error → Error
handle_error (not_found r) = not_found r
handle_error (bad_request r) = bad_request r
handle_error p2002 = conflict cart_item_exists
handle_error p2025 = not_found cart_item_not_found
handle_error p2003 = bad_request invalid_cart_item
handle_error _ = bad_request default_message

abbrev pub handled {ℓ} : {V : Type ℓ} → Result V → Result V
handled (ok v) = ok v
handled (err e) = err (handle_error e)

-- `displayStatus?.trim() === 'Y'`
abbrev pub is_y : Text → Bool
is_y [] = false
is_y (c ∷ cs) = let rest = is_y cs in if is_space c then rest else c == 89 && is_blank_text cs

abbrev pub is_displayed : Option Text → Bool
is_displayed none = false
is_displayed (some t) = is_y t

-- `product.salePrice`, which counts as missing if it is 0.
abbrev pub price_or_none : Product → Option ℕ
price_or_none p = elim p.sale_price [ none ↦ none | some n ↦ if n == 0 then none else some n ]

-- The unique key of an item: its cart and its product.
abbrev pub is_item_of : ℕ → ℕ → CartItem → Bool
is_item_of cart_id product_id i = i.cart_id == cart_id && i.product_id == product_id

abbrev pub add_to : ℕ → ℕ → CartItem → CartItem
add_to quantity price i = record i { quantity = i.quantity + quantity; sale_price = price }

abbrev pub new_item : ℕ → ℕ → ℕ → ℕ → ℕ → CartItem
new_item id cart_id product_id quantity price = record {
  id = id;
  cart_id = cart_id;
  product_id = product_id;
  quantity = quantity;
  sale_price = price;
  status = CartItemStatus.active;
}

-- The transaction of `addItem`.
unfoldable pub add_item_tx : ℕ → ℕ → ℕ → ℕ → Db → Result Db
add_item_tx cart_id product_id quantity price db =
    elim (find (is_item_of cart_id product_id) db.cart_items) [
      | some i ↦
          throw_if (not (is_active i.status)) (bad_request cart_item_checked_out)
          >> recalculate_cart_total cart_id
              (record db { cart_items = set_item i.id (add_to quantity price) db.cart_items })
      | none ↦
          let id = suc db.last_id in
          recalculate_cart_total cart_id (record db {
            cart_items = new_item id cart_id product_id quantity price ∷ db.cart_items;
            last_id = id;
          })
    ]

unfoldable pub add_item : ℕ → ℕ → ℕ → Db → Result Db
add_item cart_id product_id quantity db = handled (
    or_throw (db.carts cart_id) (not_found cart_not_found) >>= λ _.
    or_throw (db.products product_id) (not_found product_not_found) >>= λ p.
    throw_if (not (is_displayed p.display_status)) (bad_request product_not_available)
    >> (or_throw (price_or_none p) (bad_request no_sale_price) >>= λ price.
        add_item_tx cart_id product_id quantity price db))

-- `UpdateCartItemDto`
pub record ItemUpdate : Type 0 where
  pub product_id : Option ℕ
  pub quantity : Option ℕ

-- `CartItemMapper.toEntityPartial`: the price of the item is not among the data.
abbrev pub with_update : ItemUpdate → CartItem → CartItem
with_update u i = record i {
  product_id = get_or u.product_id i.product_id;
  quantity = get_or u.quantity i.quantity;
}

-- The cart has another item for this product.
abbrev pub is_taken : CartItem → List CartItem → Bool
is_taken i = any λ j. not (j.id == i.id) && is_item_of i.cart_id i.product_id j

abbrev pub is_missing : Option Product → Bool
is_missing none = true
is_missing (some _) = false

-- `cartItem.update`, with what the keys of the table refuse.
unfoldable pub write_item : Table Product → ℕ → ItemUpdate → List CartItem → Result (List CartItem)
write_item products k u items = or_throw (find_item k items) p2025 >>= λ i.
    throw_if (is_taken (with_update u i) items) p2002
    >> throw_if (is_missing (products (with_update u i).product_id)) p2003
    >> ok (set_item k (with_update u) items)

abbrev pub is_too_small : ItemUpdate → Bool
is_too_small u = elim u.quantity [ none ↦ false | some n ↦ ltb n 1 ]

unfoldable pub update_item : ℕ → ItemUpdate → Db → Result Db
update_item k u db = handled (
    or_throw (find_item k db.cart_items) (not_found cart_item_not_found) >>= λ i.
    throw_if (not (is_active i.status)) (bad_request cart_item_checked_out)
    >> throw_if (is_too_small u) (bad_request quantity_too_small)
    >> (write_item db.products k u db.cart_items >>= λ items.
        recalculate_cart_total i.cart_id (record db { cart_items = items })))

-- One entry of `BulkUpdateCartItemsDto`: the item, and what to change.
abbrev pub BulkEntry : Type 0
BulkEntry = ℕ × ItemUpdate

-- The first loop of the transaction.
unfoldable pub write_items : Table Product → List BulkEntry → List CartItem → Result (List CartItem)
write_items products [] items = ok items
write_items products ((k, u) ∷ us) items =
    write_item products k u items >>= λ items'. write_items products us items'

-- The second.
unfoldable pub recalculate_all : List ℕ → Db → Result Db
recalculate_all [] db = ok db
recalculate_all (c ∷ cs) db = recalculate_cart_total c db >>= λ db'. recalculate_all cs db'

abbrev pub ids_of : List BulkEntry → List ℕ
ids_of = map λ (e : BulkEntry). e.0

-- The items that the request names, and their carts, each once.
abbrev pub named_items : List BulkEntry → List CartItem → List CartItem
named_items es = filter λ i. contains i.id (ids_of es)

abbrev pub carts_of : List CartItem → List ℕ
carts_of items = unique [] (map (λ (i : CartItem). i.cart_id) items)

abbrev pub is_set : Option ℕ → Bool
is_set none = false
is_set (some _) = true

unfoldable pub check_bulk : List BulkEntry → Db → Result (Unit {0})
check_bulk es db =
    let existing = named_items es db.cart_items in
    throw_if (is_empty es) (bad_request empty_items)
    >> throw_if (not (length existing == length (ids_of es))) (not_found cart_item_not_found)
    >> throw_if (any (λ i. is_set (db.checked_out_at i.cart_id)) existing)
        (bad_request cart_checked_out)
    >> throw_if (any (λ i. not (is_active i.status)) existing) (bad_request cart_item_checked_out)
    >> throw_if (any (λ (e : BulkEntry). is_too_small e.1) es) (bad_request quantity_too_small)

unfoldable pub bulk_update_items : List BulkEntry → Db → Result Db
bulk_update_items es db = handled (
    check_bulk es db
    >> (write_items db.products es db.cart_items >>= λ items.
        recalculate_all (carts_of (named_items es db.cart_items))
          (record db { cart_items = items })))

abbrev pub is_in : ℕ → CartItem → Bool
is_in cart_id i = i.cart_id == cart_id

unfoldable pub clear_items_by_cart_id : ℕ → Db → Result Db
clear_items_by_cart_id cart_id db = handled (
    or_throw (db.carts cart_id) (not_found cart_not_found) >>= λ _.
    throw_if (any (λ i. is_in cart_id i && not (is_active i.status)) db.cart_items)
      (bad_request cart_has_checked_out_items)
    >> (update cart_id (λ _. 0) db.carts >>= λ carts. ok (record db {
      cart_items = filter (λ i. not (is_in cart_id i)) db.cart_items;
      carts = carts;
    })))
