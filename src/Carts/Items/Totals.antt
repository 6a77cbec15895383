-- ===== src/Carts/Items/Totals.antt =====
-- The operations on items keep the totals right.
use lif_low_backend.Prelude.{
  ℕ, ◌≤◌, ◌≡◌, refl, sym, subst, Bool, true, false, not, ◌&&◌, some, List, [], ◌∷◌, arith, ◌==◌,
  ltb, ==_iff, Listed, Listed-All, ==-flipped, filter, find, contains, any, Bool-cases,
  Option-cases, inl, inr, some-injective,
}
use lif_low_backend.Schema.{
  CartItem, is_active, Product, Table, Db, Result, ok, err, >>=-eq-ok, ok-injective, or_throw,
  or_throw-eq-ok, ◌>>◌, ◌>>=◌, throw_if, update, Result-cases,
}
use lif_low_backend.Carts.{
  cart_total, recalculate_cart_total, set_item, find_item, remove_item, update_item_quantity,
  remove_items,
}
use lif_low_backend.Carts.Totals.{
  HasDistinctIds, total-remove, distinct-remove, All-filter, amount_elsewhere,
}
use lif_low_backend.Carts.Items.{
  handled, is_item_of, add_to, price_or_none, is_displayed, add_item_tx, add_item, ItemUpdate,
  with_update, is_taken, is_missing, write_item, is_too_small, update_item, is_in,
  clear_items_by_cart_id,
}
use lif_low_backend.Carts.Items.Kept.{
  IsBounded, IsKept, IsKept-weaker, IsKept-items, IsKept-set, IsKept-recalculated, IsKept-new,
}

pub handled-eq-ok : {A : Type 0} (r : Result A) {a : A} → handled r ≡ ok a → r ≡ ok a
handled-eq-ok (ok _) h = h
handled-eq-ok (err _) h = cc

one : (c : ℕ) → contains c (c ∷ []) ≡ true
one c = ground arith

-- One item changes, and the total of its cart is mended.
pub set_and_mend :
    (db : Db) (k : ℕ) (f : CartItem → CartItem) {i : CartItem} {db' : Db}
    → IsKept [] db
    → ((j : CartItem) → (f j).id ≡ j.id)
    → ((j : CartItem) → (f j).cart_id ≡ j.cart_id)
    → find_item k db.cart_items ≡ some i
    → recalculate_cart_total i.cart_id (record db { cart_items = set_item k f db.cart_items })
      ≡ ok db'
    → IsKept [] db'
set_and_mend db k f {i} kept same_id same_cart found done =
    IsKept-recalculated i.cart_id [] (record db { cart_items = set_item k f db.cart_items })
      (IsKept-set (i.cart_id ∷ []) db k f (IsKept-weaker (i.cart_id ∷ []) db kept) same_id same_cart
        found (one i.cart_id))
      done

-- Some items of one cart go, and the total of the cart is mended.
pub drop_and_mend :
    (db : Db) (c : ℕ) (keep : CartItem → Bool) {db' : Db}
    → IsKept [] db
    → HasDistinctIds (filter keep db.cart_items)
    → ((d : ℕ)
        → (d == c) ≡ false
        → cart_total d (filter keep db.cart_items) ≡ cart_total d db.cart_items)
    → recalculate_cart_total c (record db { cart_items = filter keep db.cart_items }) ≡ ok db'
    → IsKept [] db'
drop_and_mend db c keep kept distinct same done =
    IsKept-recalculated c [] (record db { cart_items = filter keep db.cart_items })
      (IsKept-items (c ∷ []) db (filter keep db.cart_items) (IsKept-weaker (c ∷ []) db kept)
        distinct (All-filter (IsBounded db.last_id) keep db.cart_items kept.bounded)
        (λ d out. same d (ground (arith, out))))
      done

pub HasDistinctIds-filter :
    (keep : CartItem → Bool) (is : List CartItem)
    → HasDistinctIds is
    → HasDistinctIds (filter keep is)
HasDistinctIds-filter keep [] d = tt
HasDistinctIds-filter keep (i ∷ is) d = elim (Bool-cases (keep i)) [
  | inl e ↦ rw e (All-filter _ _ is d.0, HasDistinctIds-filter keep is d.1)
  | inr e ↦ rw e (HasDistinctIds-filter keep is d.1)
]

pub IsKept-remove_item :
    (k : ℕ) (db : Db) {db' : Db} → IsKept [] db → remove_item k db ≡ ok db' → IsKept [] db'
unfolding remove_item
IsKept-remove_item k db kept h =
    let (i, found, h1) = >>=-eq-ok (or_throw (find_item k db.cart_items) _) _ h in
    let (_, _, done) = >>=-eq-ok (throw_if (not (is_active i.status)) _) _ h1 in
    let f = or_throw-eq-ok (find_item k db.cart_items) _ found in
    drop_and_mend db i.cart_id (λ x. not (x.id == k)) kept
      (distinct-remove k db.cart_items kept.distinct)
      (λ d other.
        omega (arith, total-remove d k db.cart_items kept.distinct f, amount_elsewhere d i other))
      done

pub IsKept-remove_items : (ks : List ℕ) (db : Db) → IsKept [] db → IsKept [] (remove_items ks db)
unfolding remove_items
IsKept-remove_items [] db kept = kept
IsKept-remove_items (k ∷ ks) db kept = elim (Result-cases (remove_item k db)) [
  | inl (db', e) ↦
      rw (e, remove_items) (IsKept-remove_items ks db' (IsKept-remove_item k db kept e))
  | inr (_, e) ↦ rw (e, remove_items) (IsKept-remove_items ks db kept)
]

pub IsKept-update_item_quantity :
    (k quantity : ℕ) (db : Db) {db' : Db}
    → IsKept [] db
    → update_item_quantity k quantity db ≡ ok db'
    → IsKept [] db'
unfolding update_item_quantity
IsKept-update_item_quantity k quantity db kept h =
    let (_, _, h0) = >>=-eq-ok (throw_if (ltb quantity 1) _) _ h in
    let (i, found, h1) = >>=-eq-ok (or_throw (find_item k db.cart_items) _) _ h0 in
    let (_, _, done) = >>=-eq-ok (throw_if (not (is_active i.status)) _) _ h1 in
    set_and_mend db k (λ x. record x { quantity = quantity }) kept (λ _. refl) (λ _. refl)
      (or_throw-eq-ok (find_item k db.cart_items) _ found) done

pub find-Listed :
    (p : CartItem → Bool) (is : List CartItem) {i : CartItem}
    → find p is ≡ some i
    → (p i ≡ true) × Listed i is
find-Listed p [] e = cc
find-Listed p (x ∷ xs) {i} e = elim (Bool-cases (p x)) [
  | inl hit ↦
      let q : x ≡ i = some-injective (rw hit at e) in (subst (λ y. p y ≡ true) q hit, inl (sym q))
  | inr other ↦ let (hit, l) = find-Listed p xs (rw other at e) in (hit, inr l)
]

pub Listed-find :
    (is : List CartItem) (i : CartItem)
    → HasDistinctIds is
    → Listed i is
    → find_item i.id is ≡ some i
Listed-find [] i d l = elim l [ ]
Listed-find (x ∷ xs) i d (inl q) = rw (q, (==_iff x.id x.id).1 refl) refl
Listed-find (x ∷ xs) i d (inr l) = elim (Bool-cases (x.id == i.id)) [
  | inl same ↦ absurd (clash (Listed-All i (λ j. (j.id == x.id) ≡ false) xs l d.0) same)
  | inr other ↦ rw other (Listed-find xs i d.1 l)
]
  where
    clash : (i.id == x.id) ≡ false → (x.id == i.id) ≡ true → ⊥
    clash a b = cc (==-flipped _ _ a, b)

IsKept-add_item_tx :
    (cart product quantity price : ℕ) (db : Db) {db' : Db}
    → IsKept [] db
    → cart ≤ db.last_id
    → add_item_tx cart product quantity price db ≡ ok db'
    → IsKept [] db'
unfolding add_item_tx
IsKept-add_item_tx cart product quantity price db {db'} kept le h =
    elim (Option-cases (find (is_item_of cart product) db.cart_items)) [
      | inl e ↦
          IsKept-recalculated cart [] _ (IsKept-new cart product quantity price db le kept)
            (rw (e, add_item_tx) at h)
      | inr (i, e) ↦
          let (mine, l) = find-Listed (is_item_of cart product) db.cart_items e in
          let here : i.cart_id ≡ cart = ground (arith, mine) in
          let (_, _, done) =
            >>=-eq-ok (throw_if (not (is_active i.status)) _) _ (rw (e, add_item_tx) at h) in
          set_and_mend db i.id (add_to quantity price) kept (λ _. refl) (λ _. refl)
            (Listed-find db.cart_items i kept.distinct l) (rw here done)
    ]

pub IsKept-add_item :
    (cart product quantity : ℕ) (db : Db) {db' : Db}
    → IsKept [] db
    → add_item cart product quantity db ≡ ok db'
    → IsKept [] db'
unfolding add_item
IsKept-add_item cart product quantity db {db'} kept h =
    let (total, there, h1) = >>=-eq-ok (or_throw (db.carts cart) _) _ (handled-eq-ok _ h) in
    let (p, _, h2) = >>=-eq-ok (or_throw (db.products product) _) _ h1 in
    let (_, _, h3) = >>=-eq-ok (throw_if (not (is_displayed p.display_status)) _) _ h2 in
    let (price, _, h4) = >>=-eq-ok (or_throw (price_or_none p) _) _ h3 in
    IsKept-add_item_tx cart product quantity price db kept
      (kept.known cart total (or_throw-eq-ok (db.carts cart) _ there)) h4

pub write_item-eq-ok :
    (products : Table Product) (k : ℕ) (u : ItemUpdate) (items : List CartItem)
    {items' : List CartItem}
    → write_item products k u items ≡ ok items'
    → (i : CartItem) × (find_item k items ≡ some i) × (set_item k (with_update u) items ≡ items')
unfolding write_item
write_item-eq-ok products k u items h =
    let (i, found, h1) = >>=-eq-ok (or_throw (find_item k items) _) _ h in
    let (_, _, h3) =
      >>=-eq-ok
        (throw_if (is_taken (with_update u i) items) _
          >> throw_if (is_missing (products (with_update u i).product_id)) _)
        _ h1 in
    (i, or_throw-eq-ok (find_item k items) _ found, ok-injective h3)

pub IsKept-update_item :
    (k : ℕ) (u : ItemUpdate) (db : Db) {db' : Db}
    → IsKept [] db
    → update_item k u db ≡ ok db'
    → IsKept [] db'
unfolding update_item
IsKept-update_item k u db {db'} kept h =
    let (i, found, h1) = >>=-eq-ok (or_throw (find_item k db.cart_items) _) _ (handled-eq-ok _ h) in
    let (_, _, h3) =
      >>=-eq-ok (throw_if (not (is_active i.status)) _ >> throw_if (is_too_small u) _) _ h1 in
    let (items, written, done) = >>=-eq-ok (write_item db.products k u db.cart_items) _ h3 in
    let (_, _, set) = write_item-eq-ok db.products k u db.cart_items written in
    set_and_mend db k (with_update u) kept (λ _. refl) (λ _. refl)
      (or_throw-eq-ok (find_item k db.cart_items) _ found) (rw set done)

pub IsKept-clear_items :
    (cart : ℕ) (db : Db) {db' : Db}
    → IsKept [] db
    → clear_items_by_cart_id cart db ≡ ok db'
    → IsKept [] db'
unfolding clear_items_by_cart_id recalculate_cart_total
IsKept-clear_items cart db {db'} kept h =
    let (_, _, h1) = >>=-eq-ok (or_throw (db.carts cart) _) _ (handled-eq-ok _ h) in
    let (_, _, h2) =
      >>=-eq-ok (throw_if (any (λ i. is_in cart i && not (is_active i.status)) db.cart_items) _) _
        h1 in
    drop_and_mend db cart (λ i. not (is_in cart i)) kept
      (HasDistinctIds-filter (λ i. not (is_in cart i)) db.cart_items kept.distinct)
      (λ d other. kept_total d other db.cart_items) (mended h2)
  where
    kept_total :
        (d : ℕ)
        → (d == cart) ≡ false
        → (is : List CartItem)
        → cart_total d (filter (λ i. not (is_in cart i)) is) ≡ cart_total d is
    kept_total d other [] = refl
    kept_total d other (i ∷ is) = ground (arith, other, kept_total d other is)

    zero : (is : List CartItem) → cart_total cart (filter (λ i. not (is_in cart i)) is) ≡ 0
    zero [] = refl
    zero (i ∷ is) = ground (arith, zero is)

    mended :
        (update cart (λ _. 0) db.carts >>= λ carts.
        ok (record db {
          cart_items = filter (λ i. not (is_in cart i)) db.cart_items;
          carts = carts;
        }))
          ≡ ok db'
        → recalculate_cart_total cart
            (record db { cart_items = filter (λ i. not (is_in cart i)) db.cart_items })
          ≡ ok db'
    mended e = rw (zero db.cart_items) e
