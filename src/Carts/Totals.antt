-- ===== src/Carts/Totals.antt =====
-- The total that a cart keeps is the total of its active items, through every operation of
-- src/modules/carts/services/cart-item.service.ts that is modelled.
use mathlib.Core.Option
use lif_low_backend.Prelude.{
  some-injective, ℕ, ◌+◌, ◌≡◌, refl, Bool, false, not, Option, none, some, List, [], ◌∷◌, arith,
  ◌==◌, ==_iff, if◌then◌else◌, ltb, ap, sym, ◌∙◌, Bool-cases, inl, inr, filter, All, subst,
}
use lif_low_backend.Schema.{
  CartItem, is_active, Db, Table, ok, >>=-eq-ok, ok-injective, or_throw, or_throw-eq-ok, throw_if,
  update, update-eq-ok, Result-cases,
}
use lif_low_backend.Carts.{
  amount_in, cart_total, recalculate_cart_total, set_item, find_item, remove_item,
  update_item_quantity, remove_items,
}

-- The primary key of the items.
abbrev pub HasDistinctIds : List CartItem → Type 0
HasDistinctIds [] = Unit
HasDistinctIds (i ∷ is) = All (λ (j : CartItem). (j.id == i.id) ≡ false) is × HasDistinctIds is

pub record IsValid (db : Db) : Type 0 where
  pub distinct : HasDistinctIds db.cart_items
  pub totals : (c total : ℕ) → db.carts c ≡ some total → total ≡ cart_total c db.cart_items

keeps_others :
    (k : ℕ) (is : List CartItem)
    → All (λ (j : CartItem). (j.id == k) ≡ false) is
    → filter (λ x. not (x.id == k)) is ≡ is
keeps_others k [] h = refl
keeps_others k (i ∷ is) h = rw (h.0) (ap (λ r. i ∷ r) (keeps_others k is h.1))

-- The item that is found is the only one that goes.
pub total-remove :
    (c k : ℕ) (is : List CartItem) {i : CartItem}
    → HasDistinctIds is
    → find_item k is ≡ some i
    → cart_total c (filter (λ x. not (x.id == k)) is) + amount_in c i ≡ cart_total c is
total-remove c k [] d f = cc
total-remove c k (x ∷ xs) {i} d f = elim (Bool-cases (x.id == k)) [
  | inl e ↦
      let rest : All (λ (j : CartItem). (j.id == k) ≡ false) xs =
        subst (λ n. All (λ (j : CartItem). (j.id == n) ≡ false) xs) ((==_iff x.id k).0 e) d.0 in
      let same : x ≡ i = some-injective (rw e at f) in
      rw (e, same, keeps_others k xs rest) (omega arith)
  | inr e ↦ rw e (omega (arith, total-remove c k xs d.1 (rw e at f)))
]

pub total-set :
    (c k : ℕ) (f : CartItem → CartItem) (is : List CartItem) {i : CartItem}
    → find_item k is ≡ some i
    → cart_total c (set_item k f is) + amount_in c i ≡ cart_total c is + amount_in c (f i)
unfolding set_item
total-set c k f [] e = cc
total-set c k f (x ∷ xs) {i} e = ground (arith, total-set c k f xs {i = i})

pub All-filter :
    (P : CartItem → Type 0) (keep : CartItem → Bool) (is : List CartItem)
    → All P is
    → All P (filter keep is)
All-filter P keep [] h = tt
All-filter P keep (i ∷ is) h = elim (Bool-cases (keep i)) [
  | inl e ↦ rw e (h.0, All-filter P keep is h.1)
  | inr e ↦ rw e (All-filter P keep is h.1)
]

pub distinct-remove :
    (k : ℕ) (is : List CartItem)
    → HasDistinctIds is
    → HasDistinctIds (filter (λ x. not (x.id == k)) is)
distinct-remove k [] d = tt
distinct-remove k (i ∷ is) d = elim (Bool-cases (i.id == k)) [
  | inl e ↦ rw e (distinct-remove k is d.1)
  | inr e ↦ rw e (All-filter _ _ is d.0, distinct-remove k is d.1)
]

pub distinct-set :
    (k : ℕ) (f : CartItem → CartItem) (is : List CartItem)
    → ((i : CartItem) → (f i).id ≡ i.id)
    → HasDistinctIds is
    → HasDistinctIds (set_item k f is)
unfolding set_item
distinct-set k f [] same d = tt
distinct-set k f (i ∷ is) same d = elim (Bool-cases (i.id == k)) [
  | inl e ↦
      rw e (subst (λ n. All (λ (j : CartItem). (j.id == n) ≡ false) is) (sym (same i)) d.0, d.1)
  | inr e ↦ rw e (all_set is d.0, distinct-set k f is same d.1)
]
  where
    all_set :
        (js : List CartItem)
        → All (λ (j : CartItem). (j.id == i.id) ≡ false) js
        → All (λ (j : CartItem). (j.id == i.id) ≡ false) (set_item k f js)
    all_set [] h = tt
    all_set (j ∷ js) h = elim (Bool-cases (j.id == k)) [
      | inl e ↦ rw e (ap (λ n. n == i.id) (same j) ∙ h.0, h.1)
      | inr e ↦ rw e (h.0, all_set js h.1)
    ]

-- The total of one cart is brought up to date, and those of the others hold by `others`.
recalculated-IsValid :
    (c : ℕ) (db : Db) {db' : Db}
    → recalculate_cart_total c db ≡ ok db'
    → HasDistinctIds db.cart_items
    → ((c' total : ℕ)
        → (c' == c) ≡ false
        → db.carts c' ≡ some total
        → total ≡ cart_total c' db.cart_items)
    → IsValid db'
unfolding recalculate_cart_total
recalculated-IsValid c db {db'} h d others =
    let (carts, written, e) = >>=-eq-ok (update c (λ _. cart_total c db.cart_items) db.carts) _ h in
    let fine : IsValid (record db { carts = carts }) = record {
      distinct = d;
      totals = λ c' total e'. total_of carts c' total (update-eq-ok c _ db.carts written c') e';
    } in
    subst IsValid (ok-injective e) fine
  where
    from_map :
        (c' total : ℕ)
        → c' ≡ c
        → (o : Option ℕ) → Option.map (λ _. cart_total c db.cart_items) o ≡ some total
        → total ≡ cart_total c' db.cart_items
    from_map c' total q none e = cc
    from_map c' total q (some _) e = rw q (sym (some-injective e))

    total_of :
        (carts : Table ℕ) (c' total : ℕ)
        → carts c' ≡ (
            if c' == c
            then Option.map (λ _. cart_total c db.cart_items) (db.carts c')
            else db.carts c')
        → carts c' ≡ some total
        → total ≡ cart_total c' db.cart_items
    total_of carts c' total q e = elim (Bool-cases (c' == c)) [
      | inl same ↦
          let here : Option.map (λ _. cart_total c db.cart_items) (db.carts c') ≡ some total =
            sym (rw same at q) ∙ e in
          from_map c' total ((==_iff c' c).0 same) (db.carts c') here
      | inr other ↦ others c' total other (sym (rw other at q) ∙ e)
    ]

pub amount_elsewhere : (c : ℕ) (i : CartItem) → (c == i.cart_id) ≡ false → amount_in c i ≡ 0
amount_elsewhere c i h = ground arith

-- `removeItem` leaves every cart with the total of its active items.
pub remove_item-IsValid :
    (k : ℕ) (db : Db) {db' : Db} → IsValid db → remove_item k db ≡ ok db' → IsValid db'
unfolding remove_item
remove_item-IsValid k db v h =
    let (i, found, h1) = >>=-eq-ok (or_throw (find_item k db.cart_items) _) _ h in
    let (_, _, done) = >>=-eq-ok (throw_if (not (is_active i.status)) _) _ h1 in
    let f = or_throw-eq-ok (find_item k db.cart_items) _ found in
    recalculated-IsValid i.cart_id
      (record db { cart_items = filter (λ x. not (x.id == k)) db.cart_items }) done
      (distinct-remove k db.cart_items v.distinct)
      (λ c total other e. v.totals c total e ∙ elsewhere c i f other)
  where
    elsewhere :
        (c : ℕ) (i : CartItem)
        → find_item k db.cart_items ≡ some i
        → (c == i.cart_id) ≡ false
        → cart_total c db.cart_items ≡ cart_total c (filter (λ x. not (x.id == k)) db.cart_items)
    elsewhere c i f other =
        omega (arith, total-remove c k db.cart_items v.distinct f, amount_elsewhere c i other)

-- `updateItemQuantity` likewise.
pub update_item_quantity-IsValid :
    (k quantity : ℕ) (db : Db) {db' : Db}
    → IsValid db
    → update_item_quantity k quantity db ≡ ok db'
    → IsValid db'
unfolding update_item_quantity
update_item_quantity-IsValid k quantity db v h =
    let (_, _, h0) = >>=-eq-ok (throw_if (ltb quantity 1) _) _ h in
    let (i, found, h1) = >>=-eq-ok (or_throw (find_item k db.cart_items) _) _ h0 in
    let (_, _, done) = >>=-eq-ok (throw_if (not (is_active i.status)) _) _ h1 in
    let f = or_throw-eq-ok (find_item k db.cart_items) _ found in
    recalculated-IsValid i.cart_id
      (record db { cart_items = set_item k with_quantity db.cart_items }) done
      (distinct-set k with_quantity db.cart_items (λ j. refl) v.distinct)
      (λ c total other e. v.totals c total e ∙ elsewhere c i f other)
  where
    with_quantity : CartItem → CartItem
    with_quantity x = record x { quantity = quantity }

    elsewhere :
        (c : ℕ) (i : CartItem)
        → find_item k db.cart_items ≡ some i
        → (c == i.cart_id) ≡ false
        → cart_total c db.cart_items ≡ cart_total c (set_item k with_quantity db.cart_items)
    elsewhere c i f other = omega (
      arith,
      total-set c k with_quantity db.cart_items f,
      amount_elsewhere c i other,
      amount_elsewhere c (with_quantity i) other,
    )

-- The loop that removes items after a failed payment keeps the totals right too.
pub remove_items-IsValid : (ks : List ℕ) (db : Db) → IsValid db → IsValid (remove_items ks db)
unfolding remove_items
remove_items-IsValid [] db v = v
remove_items-IsValid (k ∷ ks) db v = elim (Result-cases (remove_item k db)) [
  | inl (db', e) ↦ rw (e, remove_items) (remove_items-IsValid ks db' (remove_item-IsValid k db v e))
  | inr (_, e) ↦ rw (e, remove_items) (remove_items-IsValid ks db v)
]
