-- ===== src/Carts/Service/Totals.antt =====
-- Every operation on carts but the check-out keeps the totals right.
use lif_low_backend.Prelude.{
  ℕ, ◌≡◌, refl, sym, ◌∙◌, subst, false, not, ◌&&◌, Option, none, some, List, [], ◌∷◌, arith, ◌==◌,
  filter, Bool-cases, Option-cases, inl, inr,
}
use lif_low_backend.Schema.{
  CartItem, is_active, Db, Table, put, Result, ok, err, >>=-eq-ok, ok-injective, or_throw, throw_if,
  Result-cases,
}
use lif_low_backend.Carts.{cart_total, recalculate_cart_total}
use lif_low_backend.Carts.Totals.{All-filter}
use lif_low_backend.Carts.Items.{add_item, is_in}
use lif_low_backend.Carts.Items.Kept.{
  IsBounded, IsKept, IsKept-weaker, IsKept-recalculated, IsKept-with_cart,
}
use lif_low_backend.Carts.Service.{
  cart_handled, new_cart, find_or_create, add_and_calculate, add_item_to_cart, clear_cart, without,
  without_owner, delete_cart, is_of_another, update_cart,
}
use lif_low_backend.Carts.Service.Steps.{
  CartStep, removing, removing_all, setting_quantity, adding, updating, updating_all,
  clearing_items, creating, adding_to_cart, clearing, deleting, changing_user, CartRun, stop, next,
}
use lif_low_backend.Carts.Items.Totals.{
  drop_and_mend, HasDistinctIds-filter, IsKept-remove_item, IsKept-remove_items,
  IsKept-update_item_quantity, IsKept-add_item, IsKept-update_item, IsKept-clear_items,
}
use lif_low_backend.Carts.Items.Bulk.{IsKept-bulk_update_items}

pub cart_handled-eq-ok : {A : Type 0} (r : Result A) {a : A} → cart_handled r ≡ ok a → r ≡ ok a
cart_handled-eq-ok (ok _) h = h
cart_handled-eq-ok (err _) h = cc

IsKept-clear_cart :
    (cart : ℕ) (db : Db) {db' : Db} → IsKept [] db → clear_cart cart db ≡ ok db' → IsKept [] db'
unfolding clear_cart
IsKept-clear_cart cart db kept h =
    let (_, _, done) = >>=-eq-ok (or_throw (db.carts cart) _) _ (cart_handled-eq-ok _ h) in
    let keep = λ (i : CartItem). not (is_in cart i && is_active i.status) in
    drop_and_mend db cart keep kept (HasDistinctIds-filter keep db.cart_items kept.distinct)
      (λ d other. total_elsewhere d cart other db.cart_items) done
  where
    total_elsewhere :
        (d c : ℕ)
        → (d == c) ≡ false
        → (is : List CartItem)
        → cart_total d (filter (λ i. not (is_in c i && is_active i.status)) is) ≡ cart_total d is
    total_elsewhere d c other [] = refl
    total_elsewhere d c other (i ∷ is) = ground (arith, other, total_elsewhere d c other is)

IsKept-new_cart :
    (user : ℕ) (db : Db) {id : ℕ} {db' : Db}
    → IsKept [] db
    → new_cart user db ≡ ok (id, db')
    → IsKept [] db'
unfolding new_cart
IsKept-new_cart user db kept h =
    let (_, _, made) = >>=-eq-ok (or_throw (db.users user) _) _ h in
    subst (λ (r : ℕ × Db). IsKept [] r.1) (ok-injective made) (IsKept-with_cart user db kept)

IsKept-find_or_create :
    (user : ℕ) (db : Db) {id : ℕ} {db' : Db}
    → IsKept [] db
    → find_or_create user db ≡ ok (id, db')
    → IsKept [] db'
unfolding find_or_create
IsKept-find_or_create user db kept h = elim (Option-cases (db.cart_of user)) [
  | inl e ↦ IsKept-new_cart user db kept (rw (e, find_or_create) at h)
  | inr (c, e) ↦
      subst (λ (r : ℕ × Db). IsKept [] r.1) (ok-injective (rw (e, find_or_create) at h)) kept
]

IsKept-add_and_calculate :
    (cart product quantity : ℕ) (db : Db)
    → IsKept [] db
    → IsKept [] (add_and_calculate cart product quantity db).0
unfolding add_and_calculate
IsKept-add_and_calculate cart product quantity db kept =
    elim (Result-cases (add_item cart product quantity db)) [
      | inr (_, e) ↦ rw (e, add_and_calculate) kept
      | inl (db1, e) ↦
          let kept1 = IsKept-add_item cart product quantity db kept e in
          elim (Result-cases (recalculate_cart_total cart db1)) [
            | inr (_, f) ↦ rw (e, f, add_and_calculate) kept1
            | inl (db2, f) ↦
                rw (e, f, add_and_calculate)
                  (IsKept-recalculated cart [] db1 (IsKept-weaker (cart ∷ []) db1 kept1) f)
          ]
    ]

IsKept-add_item_to_cart :
    (user product quantity : ℕ) (db : Db)
    → IsKept [] db
    → IsKept [] (add_item_to_cart user product quantity db).0
unfolding add_item_to_cart
IsKept-add_item_to_cart user product quantity db kept =
    elim (Result-cases (find_or_create user db)) [
      | inr (_, e) ↦ rw (e, add_item_to_cart) kept
      | inl (r, e) ↦
          rw (e, add_item_to_cart)
            (IsKept-add_and_calculate r.0 product quantity r.1
              (IsKept-find_or_create user db kept e))
    ]

elsewhere :
    (d c : ℕ)
    → (d == c) ≡ false
    → (is : List CartItem) → cart_total d (filter (λ i. not (is_in c i)) is) ≡ cart_total d is
elsewhere d c other [] = refl
elsewhere d c other (i ∷ is) = ground (arith, other, elsewhere d c other is)

IsKept-without :
    (cart : ℕ) (db : Db)
    → IsKept [] db
    → IsKept [] (record db {
      carts = without cart db.carts;
      cart_of = without_owner cart db.cart_of;
      checked_out_at = without cart db.checked_out_at;
      cart_items = filter (λ i. not (is_in cart i)) db.cart_items;
    })
IsKept-without cart db kept = record {
  distinct = HasDistinctIds-filter (λ i. not (is_in cart i)) db.cart_items kept.distinct;
  bounded = All-filter (IsBounded db.last_id) (λ i. not (is_in cart i)) db.cart_items kept.bounded;
  known = λ c total e. elim (Bool-cases (c == cart)) [
    | inl same ↦ cc (rw same at e)
    | inr other ↦ kept.known c total (rw other at e)
  ];
  totals = λ c total _ e. elim (Bool-cases (c == cart)) [
    | inl same ↦ cc (rw same at e)
    | inr other ↦
        kept.totals c total refl (rw other at e) ∙ sym (elsewhere c cart other db.cart_items)
  ];
}

IsKept-delete_cart :
    (cart : ℕ) (db : Db) {db' : Db} → IsKept [] db → delete_cart cart db ≡ ok db' → IsKept [] db'
unfolding delete_cart
IsKept-delete_cart cart db kept h =
    let (_, _, made) = >>=-eq-ok (or_throw (db.carts cart) _) _ (cart_handled-eq-ok _ h) in
    subst (IsKept []) (ok-injective made) (IsKept-without cart db kept)

-- The owners of the carts do not matter.
IsKept-owners :
    (owners : Table ℕ) (db : Db) → IsKept [] db → IsKept [] (record db { cart_of = owners })
IsKept-owners owners db kept = record {
  distinct = kept.distinct;
  bounded = kept.bounded;
  known = kept.known;
  totals = kept.totals;
}

IsKept-update_cart :
    (cart : ℕ) (user : Option ℕ) (db : Db) {db' : Db}
    → IsKept [] db
    → update_cart cart user db ≡ ok db'
    → IsKept [] db'
unfolding update_cart
IsKept-update_cart cart none db kept h =
    let (_, _, made) = >>=-eq-ok (or_throw (db.carts cart) _) _ (cart_handled-eq-ok _ h) in
    subst (IsKept []) (ok-injective made) kept
IsKept-update_cart cart (some u) db kept h =
    let (_, _, h1) = >>=-eq-ok (or_throw (db.carts cart) _) _ (cart_handled-eq-ok _ h) in
    let (_, _, h2) = >>=-eq-ok (throw_if (is_of_another cart (db.cart_of u)) _) _ h1 in
    let (_, _, made) = >>=-eq-ok (or_throw (db.users u) _) _ h2 in
    subst (IsKept []) (ok-injective made)
      (IsKept-owners (put u cart (without_owner cart db.cart_of)) db kept)

IsKept-CartStep : {db db' : Db} → CartStep db db' → IsKept [] db → IsKept [] db'
IsKept-CartStep (removing k {db} h) kept = IsKept-remove_item k db kept h
IsKept-CartStep (removing_all ks {db}) kept = IsKept-remove_items ks db kept
IsKept-CartStep (setting_quantity k quantity {db} h) kept =
    IsKept-update_item_quantity k quantity db kept h
IsKept-CartStep (adding cart product quantity {db} h) kept =
    IsKept-add_item cart product quantity db kept h
IsKept-CartStep (updating k u {db} h) kept = IsKept-update_item k u db kept h
IsKept-CartStep (updating_all es {db} h) kept = IsKept-bulk_update_items es db kept h
IsKept-CartStep (clearing_items cart {db} h) kept = IsKept-clear_items cart db kept h
IsKept-CartStep (creating user cart {db} h) kept =
    IsKept-find_or_create user db kept (cart_handled-eq-ok _ h)
IsKept-CartStep (adding_to_cart user product quantity {db}) kept =
    IsKept-add_item_to_cart user product quantity db kept
IsKept-CartStep (clearing cart {db} h) kept = IsKept-clear_cart cart db kept h
IsKept-CartStep (deleting cart {db} h) kept = IsKept-delete_cart cart db kept h
IsKept-CartStep (changing_user cart user {db} h) kept = IsKept-update_cart cart user db kept h

-- Over any run of the operations on carts and their items, the check-out apart, each cart keeps
-- the total of its active items, whichever calls succeed, and the identifiers stay distinct and
-- known, if all this holds at the start.
pub run-IsKept : {db db' : Db} → IsKept [] db → CartRun db db' → IsKept [] db'
run-IsKept kept stop = kept
run-IsKept kept (next a rest) = run-IsKept (IsKept-CartStep a kept) rest
