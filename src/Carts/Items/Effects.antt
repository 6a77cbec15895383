-- ===== src/Carts/Items/Effects.antt =====
-- What `addItem` and `updateItem` make of an item.
use lif_low_backend.Prelude.{
  ℕ, suc, ◌+◌, ◌≡◌, refl, sym, ap, ◌∙◌, true, false, not, Option, none, some, List, [], ◌∷◌, arith,
  ◌==◌, ==_iff, find, get_or, Bool-cases, Option-cases, inl, inr, some-injective, Listed-All,
  ==-flipped, not-false,
}
use lif_low_backend.Schema.{
  CartItem, is_active, Product, Db, ok, >>=-eq-ok, ok-injective, or_throw, or_throw-eq-ok, throw_if,
  throw_if-eq-ok, update, ◌>>◌,
}
use lif_low_backend.Carts.{cart_total, recalculate_cart_total, set_item, find_item}
use lif_low_backend.Carts.Totals.{HasDistinctIds}
use lif_low_backend.Carts.Items.{
  is_item_of, add_to, new_item, price_or_none, is_displayed, add_item_tx, add_item, ItemUpdate,
  with_update, write_item, is_too_small, update_item,
}
use lif_low_backend.Carts.Items.Totals.{handled-eq-ok, find-Listed, write_item-eq-ok}

-- A recalculation leaves the items alone.
recalculated_items :
    (c : ℕ) (db : Db) {db' : Db}
    → recalculate_cart_total c db ≡ ok db'
    → db'.cart_items ≡ db.cart_items
unfolding recalculate_cart_total
recalculated_items c db h =
    let (carts, _, e) = >>=-eq-ok (update c (λ _. cart_total c db.cart_items) db.carts) _ h in
    sym (ap (λ (d : Db). d.cart_items) (ok-injective e))

find-set_item :
    (k : ℕ) (f : CartItem → CartItem) (is : List CartItem) {i : CartItem}
    → ((j : CartItem) → (f j).id ≡ j.id)
    → find_item k is ≡ some i
    → find_item k (set_item k f is) ≡ some (f i)
unfolding set_item
find-set_item k f [] same e = cc
find-set_item k f (x ∷ xs) {i} same e = elim (Bool-cases (x.id == k)) [
  | inl hit ↦
      let q : x ≡ i = some-injective (rw hit at e) in
      let kept : ((f x).id == k) ≡ true = ap (λ n. n == k) (same x) ∙ hit in
      rw (hit, kept) (ap (λ y. some (f y)) q)
  | inr other ↦ rw (other, other) (find-set_item k f xs same (rw other at e))
]

-- The item of a cart and a product is changed where it is found.
find-set_item_of :
    (cart product : ℕ) (f : CartItem → CartItem) (is : List CartItem) {i : CartItem}
    → ((j : CartItem) → is_item_of cart product (f j) ≡ is_item_of cart product j)
    → HasDistinctIds is
    → find (is_item_of cart product) is ≡ some i
    → find (is_item_of cart product) (set_item i.id f is) ≡ some (f i)
unfolding set_item
find-set_item_of cart product f [] same d e = cc
find-set_item_of cart product f (x ∷ xs) {i} same d e =
    elim (Bool-cases (is_item_of cart product x)) [
      | inl hit ↦
          let q : x ≡ i = some-injective (rw hit at e) in
          rw ((==_iff x.id i.id).1 (ap (λ (y : CartItem). y.id) q), same x, hit)
            (ap (λ y. some (f y)) q)
      | inr miss ↦
          let e' = rw miss at e in
          let (_, l) = find-Listed (is_item_of cart product) xs e' in
          let apart : (x.id == i.id) ≡ false =
            ==-flipped _ _ (Listed-All i (λ j. (j.id == x.id) ≡ false) xs l d.0) in
          rw (apart, miss) (find-set_item_of cart product f xs same d.1 e')
    ]

-- The quantity of an item that may be missing.
abbrev pub quantity_of : Option CartItem → ℕ
quantity_of none = 0
quantity_of (some i) = i.quantity

pub record IsAdded (cart product quantity : ℕ) (db db' : Db) : Type 0 where
  pub item : CartItem
  pub found : find (is_item_of cart product) db'.cart_items ≡ some item
  pub quantity_added :
      item.quantity ≡ quantity_of (find (is_item_of cart product) db.cart_items) + quantity
  pub product_row : Product
  pub of_table : db.products product ≡ some product_row
  pub is_displayed_row : is_displayed product_row.display_status ≡ true
  pub price : product_row.sale_price ≡ some item.sale_price

added_tx :
    (cart product quantity price : ℕ) (db : Db) {db' : Db}
    → HasDistinctIds db.cart_items
    → add_item_tx cart product quantity price db ≡ ok db'
    → (j : CartItem) × (find (is_item_of cart product) db'.cart_items ≡ some j)
      × (j.quantity ≡ quantity_of (find (is_item_of cart product) db.cart_items) + quantity)
      × (j.sale_price ≡ price)
unfolding add_item_tx
added_tx cart product quantity price db d h =
    elim (Option-cases (find (is_item_of cart product) db.cart_items)) [
      | inl e ↦
          let done = rw (e, add_item_tx) at h in
          let j = new_item (suc db.last_id) cart product quantity price in
          (j, rw (recalculated_items cart _ done) (ground arith), rw e (omega arith), refl)
      | inr (i, e) ↦
          let (_, _, done) =
            >>=-eq-ok (throw_if (not (is_active i.status)) _) _ (rw (e, add_item_tx) at h) in
          (
            add_to quantity price i,
            rw (recalculated_items cart _ done) (
                find-set_item_of cart product (add_to quantity price) db.cart_items (λ _. refl) d
                  e),
            rw e refl,
            refl,
          )
    ]

price_or_none_lem : (p : Product) {n : ℕ} → price_or_none p ≡ some n → p.sale_price ≡ some n
price_or_none_lem p e = elim (Option-cases p.sale_price) [
  | inl f ↦ cc (rw f at e)
  | inr (m, f) ↦ elim (Bool-cases (m == 0)) [
    | inl z ↦ cc (rw z at (rw f at e))
    | inr z ↦ f ∙ rw z at (rw f at e)
  ]
]

-- After `addItem` the cart has one item for the product: it has as many pieces as before and those
-- that are added, at the present price of the product, which is on display. The identifiers of
-- the items are distinct at the start.
pub add_item-IsAdded :
    (cart product quantity : ℕ) (db : Db) {db' : Db}
    → HasDistinctIds db.cart_items
    → add_item cart product quantity db ≡ ok db'
    → IsAdded cart product quantity db db'
unfolding add_item
add_item-IsAdded cart product quantity db d h =
    let (_, _, h1) = >>=-eq-ok (or_throw (db.carts cart) _) _ (handled-eq-ok _ h) in
    let (p, row, h2) = >>=-eq-ok (or_throw (db.products product) _) _ h1 in
    let (_, shown, h3) = >>=-eq-ok (throw_if (not (is_displayed p.display_status)) _) _ h2 in
    let (price, priced, h4) = >>=-eq-ok (or_throw (price_or_none p) _) _ h3 in
    let (j, found, more, same) = added_tx cart product quantity price db d h4 in
    record {
      item = j;
      found = found;
      quantity_added = more;
      product_row = p;
      of_table = or_throw-eq-ok (db.products product) _ row;
      is_displayed_row = not-false _ (throw_if-eq-ok _ _ shown);
      price = price_or_none_lem p (or_throw-eq-ok (price_or_none p) _ priced) ∙ ap some (sym same);
    }

-- `updateItem` gives the item the product and the quantity that the request names, and leaves it
-- its price, whatever the product then is.
pub update_item-IsUpdated :
    (k : ℕ) (u : ItemUpdate) (db : Db) (i : CartItem) {db' : Db}
    → find_item k db.cart_items ≡ some i
    → update_item k u db ≡ ok db'
    → find_item k db'.cart_items
      ≡ some (record i {
        product_id = get_or u.product_id i.product_id;
        quantity = get_or u.quantity i.quantity;
        sale_price = i.sale_price;
      })
unfolding update_item
update_item-IsUpdated k u db i here h =
    let (i', found, h1) =
      >>=-eq-ok (or_throw (find_item k db.cart_items) _) _ (handled-eq-ok _ h) in
    let (_, _, h3) =
      >>=-eq-ok (throw_if (not (is_active i'.status)) _ >> throw_if (is_too_small u) _) _ h1 in
    let (items, written, done) = >>=-eq-ok (write_item db.products k u db.cart_items) _ h3 in
    let (_, _, set) = write_item-eq-ok db.products k u db.cart_items written in
    rw (recalculated_items i'.cart_id (record db { cart_items = items }) done, sym set)
      (find-set_item k (with_update u) db.cart_items (λ _. refl) here)
