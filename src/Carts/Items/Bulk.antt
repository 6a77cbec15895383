-- ===== src/Carts/Items/Bulk.antt =====
-- `bulkUpdateItems` keeps the totals of all carts right, since it mends those of all items that it
-- changes.
use lif_low_backend.Prelude.{
  ℕ, ◌≡◌, refl, ap, subst, true, not, ◌&&◌, some, List, [], ◌∷◌, arith, ◌==◌, ==_iff, All, Listed,
  filter, map, contains, unique, Bool-cases, inl, inr, some-injective,
}
use lif_low_backend.Schema.{CartItem, Db, ok, >>=-eq-ok, ok-injective}
use lif_low_backend.Carts.{set_item, find_item}
use lif_low_backend.Carts.Items.{
  ItemUpdate, with_update, write_item, BulkEntry, write_items, ids_of, named_items, carts_of,
  check_bulk, bulk_update_items,
}
use lif_low_backend.Carts.Items.Kept.{IsKept, IsKept-weaker, IsKept-set, IsKept-recalculated_all}
use lif_low_backend.Carts.Items.Totals.{handled-eq-ok, find-Listed, write_item-eq-ok}

contains-unique :
    (v : ℕ) (seen us : List ℕ)
    → contains v (unique seen us) ≡ (contains v us && not (contains v seen))
unfolding unique
contains-unique v seen [] = refl
contains-unique v seen (u ∷ us) =
    let fresh = contains-unique v (u ∷ seen) us in
    let rest = contains-unique v seen us in
    elim (Bool-cases (u == v)) [
      | inl same ↦
          let q : u ≡ v = (==_iff _ _).0 same in
          ground (arith, fresh, rest, ap (λ w. contains w seen) q)
      | inr other ↦ ground (arith, fresh, rest)
    ]

-- The cart of an item that is named is among the carts.
cart_named :
    (ids : List ℕ) (items : List CartItem) (i : CartItem)
    → Listed i items
    → contains i.id ids ≡ true
    → contains i.cart_id (map (λ (j : CartItem). j.cart_id) (filter (λ j. contains j.id ids) items))
      ≡ true
cart_named ids [] i l named = elim l [ ]
cart_named ids (x ∷ xs) i (inl q) named =
    let hit : contains x.id ids ≡ true = subst (λ j. contains j.id ids ≡ true) q named in
    rw (hit, q) (ground arith)
cart_named ids (x ∷ xs) i (inr l) named = elim (Bool-cases (contains x.id ids)) [
  | inl e ↦ rw e (ground (arith, cart_named ids xs i l named))
  | inr e ↦ rw e (cart_named ids xs i l named)
]

-- The items that the entries name have their carts among `cs`.
Covers : List ℕ → List CartItem → List BulkEntry → Type 0
Covers cs items =
    All λ (e : BulkEntry).
      (i : CartItem) → find_item e.0 items ≡ some i → contains i.cart_id cs ≡ true

find-set_item :
    (j k : ℕ) (u : ItemUpdate) (items : List CartItem) {i : CartItem}
    → find_item j (set_item k (with_update u) items) ≡ some i
    → (i' : CartItem) × (find_item j items ≡ some i') × (i'.cart_id ≡ i.cart_id)
unfolding set_item
find-set_item j k u [] e = cc
find-set_item j k u (x ∷ xs) {i} e = elim (Bool-cases (x.id == k)) [
  | inl here ↦ elim (Bool-cases (x.id == j)) [
    | inl hit ↦
        let q : with_update u x ≡ i = some-injective (rw hit at (rw here at e)) in
        (x, rw hit refl, ap (λ (y : CartItem). y.cart_id) q)
    | inr other ↦ (i, rw other (rw other at (rw here at e)), refl)
  ]
  | inr there ↦ elim (Bool-cases (x.id == j)) [
    | inl hit ↦
        let q : x ≡ i = some-injective (rw hit at (rw there at e)) in
        (x, rw hit refl, ap (λ (y : CartItem). y.cart_id) q)
    | inr other ↦
        let (i', found, same) = find-set_item j k u xs (rw other at (rw there at e)) in
        (i', rw other found, same)
  ]
]

Covers-set_item :
    (cs : List ℕ) (k : ℕ) (u : ItemUpdate) (items : List CartItem) (es : List BulkEntry)
    → Covers cs items es
    → Covers cs (set_item k (with_update u) items) es
unfolding Covers
Covers-set_item cs k u items [] c = tt
Covers-set_item cs k u items (e ∷ es) c = (
  λ i found.
      let (i', found', same) = find-set_item e.0 k u items found in
      subst (λ x. contains x cs ≡ true) same (c.0 i' found'),
  Covers-set_item cs k u items es c.1,
)

IsKept-write_items :
    (cs : List ℕ) (es : List BulkEntry) (db : Db) {items : List CartItem}
    → IsKept cs db
    → Covers cs db.cart_items es
    → write_items db.products es db.cart_items ≡ ok items
    → IsKept cs (record db { cart_items = items })
unfolding write_items Covers
IsKept-write_items cs [] db kept c h =
    subst (λ is. IsKept cs (record db { cart_items = is })) (ok-injective h) kept
IsKept-write_items cs ((k, u) ∷ es) db {items} kept c h =
    let (items1, first, rest) = >>=-eq-ok (write_item db.products k u db.cart_items) _ h in
    let (i, found, set) = write_item-eq-ok db.products k u db.cart_items first in
    let db1 : Db = record db { cart_items = items1 } in
    let kept1 : IsKept cs db1 =
      subst (λ is. IsKept cs (record db { cart_items = is })) set
        (IsKept-set cs db k (with_update u) kept (λ _. refl) (λ _. refl) found (c.0 i found)) in
    let covered : Covers cs items1 es =
      subst (λ is. Covers cs is es) set (Covers-set_item cs k u db.cart_items es c.1) in
    IsKept-write_items cs es db1 kept1 covered rest

abbrev carts_in : List ℕ → List CartItem → List ℕ
carts_in ids items = map (λ (j : CartItem). j.cart_id) (filter (λ j. contains j.id ids) items)

covered_by :
    (items : List CartItem) (ids : List ℕ) (es : List BulkEntry)
    → ((v : ℕ) → contains v (ids_of es) ≡ true → contains v ids ≡ true)
    → Covers (carts_of (filter (λ i. contains i.id ids) items)) items es
unfolding Covers
covered_by items ids [] f = tt
covered_by items ids (e ∷ es) f = (
  λ i found.
      let (hit, l) = find-Listed (λ x. x.id == e.0) items found in
      let named : contains i.id ids ≡ true =
        rw ((==_iff i.id e.0).0 hit) (f e.0 (rw ((==_iff e.0 e.0).1 refl) refl)) in
      rw (contains-unique i.cart_id [] (carts_in ids items), cart_named ids items i l named) refl,
  covered_by items ids es (λ v c. f v (ground (arith, c))),
)

pub IsKept-bulk_update_items :
    (es : List BulkEntry) (db : Db) {db' : Db}
    → IsKept [] db
    → bulk_update_items es db ≡ ok db'
    → IsKept [] db'
unfolding bulk_update_items
IsKept-bulk_update_items es db kept h =
    let cs = carts_of (named_items es db.cart_items) in
    let (_, _, h1) = >>=-eq-ok (check_bulk es db) _ (handled-eq-ok _ h) in
    let (items, written, done) = >>=-eq-ok (write_items db.products es db.cart_items) _ h1 in
    IsKept-recalculated_all cs (record db { cart_items = items })
      (IsKept-write_items cs es db (IsKept-weaker cs db kept)
        (covered_by db.cart_items (ids_of es) es (λ v e. e)) written)
      done
