-- ===== src/Carts/Changes.antt =====
-- What the operations on cart items leave alone: everything but the carts and their items.
use lif_low_backend.Prelude.{ℕ, ◌≡◌, refl, not, List, [], ◌∷◌, ◌==◌, ap, sym, ◌∙◌, inl, inr, filter}
use lif_low_backend.Schema.{
  CartItem, is_active, Db, Table, ok, >>=-eq-ok, ok-injective, or_throw, throw_if, update,
  Result-cases,
}
use lif_low_backend.Carts.{cart_total, recalculate_cart_total, find_item, remove_item, remove_items}

-- The two databases differ in carts and in their items only.
abbrev pub IsCartChange : Db → Db → Type 0
IsCartChange db db' =
    (items : List CartItem) × (carts : Table ℕ) × (db'
      ≡ record db { cart_items = items; carts = carts })

remove_item-IsCartChange :
    (k : ℕ) (db : Db) {db' : Db} → remove_item k db ≡ ok db' → IsCartChange db db'
unfolding remove_item recalculate_cart_total
remove_item-IsCartChange k db h =
    let (i, _, h1) = >>=-eq-ok (or_throw (find_item k db.cart_items) _) _ h in
    let (_, _, h2) = >>=-eq-ok (throw_if (not (is_active i.status)) _) _ h1 in
    let items = filter (λ x. not (x.id == k)) db.cart_items in
    let (carts, _, e) =
      >>=-eq-ok (update i.cart_id (λ _. cart_total i.cart_id items) db.carts) _ h2 in
    (items, carts, sym (ok-injective e))

-- The loop over items changes carts and their items only.
pub remove_items-IsCartChange : (ks : List ℕ) (db : Db) → IsCartChange db (remove_items ks db)
unfolding remove_items
remove_items-IsCartChange [] db = (db.cart_items, db.carts, refl)
remove_items-IsCartChange (k ∷ ks) db = elim (Result-cases (remove_item k db)) [
  | inl (db1, e) ↦
      let (items1, carts1, q1) = remove_item-IsCartChange k db e in
      let (items, carts, q) = remove_items-IsCartChange ks db1 in
      (
        items,
        carts,
        rw (e, remove_items)
            (q ∙ ap {A = Db} (λ d. record d { cart_items = items; carts = carts }) q1),
      )
  | inr (_, e) ↦ rw (e, remove_items) (remove_items-IsCartChange ks db)
]
