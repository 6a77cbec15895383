-- ===== src/Stock/Laws.antt =====
-- The loops over the stock against the quantity that was ordered of each product.
use mathlib.Core.Option
use lif_low_backend.Prelude.{
  add_zero, sub_zero, map-ne-none, ℕ, ◌+◌, ℤ, pos, ◌+ℤ◌, ◌-ℤ◌, int_laws, ◌≡◌, ◌≢◌, refl, inl, inr,
  Option, none, some, List, [], ◌∷◌, arith, ltb, ◌==◌, if◌then◌else◌, get_or, is_some_of, sum_by,
  All, Option-cases, Bool-cases, sym, ◌∙◌, ap, ==_iff,
}
use lif_low_backend.Schema.{
  Product, Order, Table, put, ok, update, >>=-eq-ok, ok-injective, update-eq-ok,
}
use lif_low_backend.Stock.{
  add_quantity, add_order, product_quantities, lower_origin, raise_stock, lower_product,
  lower_products, take_stock, restore_product, restore_stock,
}

-- How much of product `k` one order holds, and all of them.
abbrev pub quantity_of : ℕ → Order → ℕ
quantity_of k o = if is_some_of k o.product_id then get_or o.quantity 0 else 0

abbrev pub ordered : ℕ → List Order → ℕ
ordered k = sum_by (quantity_of k)

-- What the entries of a `Map` hold for one key.
abbrev entry_total : ℕ → List (ℕ × ℕ) → ℕ
entry_total k = sum_by (λ (e : ℕ × ℕ). if e.0 == k then e.1 else 0)

entry_total-add_quantity :
    (k j n : ℕ) (m : List (ℕ × ℕ))
    → entry_total k (add_quantity j n m) ≡ entry_total k m + (if j == k then n else 0)
entry_total-add_quantity k j n [] = ground arith
entry_total-add_quantity k j n (e ∷ m) = ground (arith, entry_total-add_quantity k j n m)

entry_total-add_order :
    (k : ℕ) (o : Order) (m : List (ℕ × ℕ))
    → entry_total k (add_order o m) ≡ entry_total k m + quantity_of k o
entry_total-add_order k o m = elim (Option-cases o.product_id) [
  | inl e ↦ ground arith
  | inr (j, e) ↦ ground (arith, entry_total-add_quantity k j (get_or o.quantity 0) m)
]

entry_total-product_quantities :
    (k : ℕ) (orders : List Order) (m : List (ℕ × ℕ))
    → entry_total k (product_quantities m orders) ≡ entry_total k m + ordered k orders
unfolding product_quantities
entry_total-product_quantities k [] m = omega arith
entry_total-product_quantities k (o ∷ orders) m =
    omega
      (arith, entry_total-add_order k o m, entry_total-product_quantities k orders (add_order o m))

pub sub_sub : (z : ℤ) (a b : ℕ) → z -ℤ pos a -ℤ pos b ≡ z -ℤ pos (a + b)
sub_sub z a b = omega int_laws

pub add_add : (z : ℤ) (a b : ℕ) → z +ℤ pos a +ℤ pos b ≡ z +ℤ pos (a + b)
add_add z a b = omega int_laws

lower_origin_zero : (o : Option Product) → Option.map (lower_origin 0) o ≡ o
lower_origin_zero none = refl
lower_origin_zero (some p) = elim (Option-cases p.origin) [
  | inl e ↦ ground arith
  | inr (z, e) ↦ ground (arith, sub_zero z)
]

lower_origin_add :
    (a b : ℕ) (o : Option Product)
    → Option.map (lower_origin b) (Option.map (lower_origin a) o)
      ≡ Option.map (lower_origin (a + b)) o
lower_origin_add a b none = refl
lower_origin_add a b (some p) = elim (Option-cases p.origin) [
  | inl e ↦ ground arith
  | inr (z, e) ↦ ground (arith, sub_sub z a b)
]

lower_product_lem :
    (k j n : ℕ) (t : Table Product)
    → lower_product j n t k ≡ Option.map (lower_origin (if j == k then n else 0)) (t k)
lower_product_lem k j n t = elim (Bool-cases (j == k)) [
  | inl e ↦ ground (arith, ==_iff j k)
  | inr e ↦ rw e (ground (arith, lower_origin_zero (t k)))
]

lower_products_lem :
    (k : ℕ) (m : List (ℕ × ℕ)) (t : Table Product)
    → lower_products m t k ≡ Option.map (lower_origin (entry_total k m)) (t k)
unfolding lower_products
lower_products_lem k [] t = sym (lower_origin_zero (t k))
lower_products_lem k ((j, n) ∷ m) t =
    lower_products_lem k m (lower_product j n t)
    ∙ ap (Option.map (lower_origin (entry_total k m))) (lower_product_lem k j n t)
    ∙ lower_origin_add (if j == k then n else 0) (entry_total k m) (t k)

-- A confirmed payment takes from each product what the orders hold of it, whatever the order of
-- the lines and however often a product is listed; a product with no stock figure, and one that
-- is in no order, stays as it is.
pub take_stock_lem :
    (k : ℕ) (orders : List Order) (t : Table Product)
    → take_stock orders t k ≡ Option.map (lower_origin (ordered k orders)) (t k)
unfolding take_stock
take_stock_lem k orders t =
    lower_products_lem k (product_quantities [] orders) t
    ∙ ap (λ n. Option.map (lower_origin n) (t k))
        (omega (arith, entry_total-product_quantities k orders []))

raise_stock_zero : (o : Option Product) → Option.map (raise_stock 0) o ≡ o
raise_stock_zero none = refl
raise_stock_zero (some p) = elim (Option-cases p.origin) [
  | inl e ↦ elim (Option-cases p.stock_quantity) [
    | inl f ↦ ground arith
    | inr (y, f) ↦ ground (arith, add_zero y)
  ]
  | inr (z, e) ↦ elim (Option-cases p.stock_quantity) [
    | inl f ↦ ground (arith, add_zero z)
    | inr (y, f) ↦ ground (arith, add_zero z, add_zero y)
  ]
]

raise_stock_add :
    (a b : ℕ) (o : Option Product)
    → Option.map (raise_stock b) (Option.map (raise_stock a) o) ≡ Option.map (raise_stock (a + b)) o
raise_stock_add a b none = refl
raise_stock_add a b (some p) = elim (Option-cases p.origin) [
  | inl e ↦ elim (Option-cases p.stock_quantity) [
    | inl f ↦ ground arith
    | inr (y, f) ↦ ground (arith, add_add y a b)
  ]
  | inr (z, e) ↦ elim (Option-cases p.stock_quantity) [
    | inl f ↦ ground (arith, add_add z a b)
    | inr (y, f) ↦ ground (arith, add_add z a b, add_add y a b)
  ]
]

pub restore_product_lem :
    (k : ℕ) (o : Order) (t : Table Product) {t' : Table Product}
    → restore_product o t ≡ ok t'
    → t' k ≡ Option.map (raise_stock (quantity_of k o)) (t k)
unfolding restore_product
restore_product_lem k o t {t'} h = elim (Option-cases o.product_id) [
  | inl e ↦
      let same : t ≡ t' = ok-injective (rw e at h) in
      rw (← same) (rw e (sym (raise_stock_zero (t k))))
  | inr (j, e) ↦ elim (Bool-cases (ltb 0 (get_or o.quantity 0))) [
    | inl positive ↦
        let written : update j (raise_stock (get_or o.quantity 0)) t ≡ ok t' =
          rw positive at (rw e at h) in
        rw e (ground (arith, update-eq-ok j _ t written k, raise_stock_zero (t k), ==_iff j k))
    | inr nothing ↦
        let same : t ≡ t' = ok-injective (rw nothing at (rw e at h)) in
        rw (← same) (rw e (ground (arith, raise_stock_zero (t k))))
  ]
]

-- A cancellation that succeeds gives back to each product what the orders hold of it, to the
-- stock figure and to the display quantity alike.
pub restore_stock_lem :
    (k : ℕ) (orders : List Order) (t : Table Product) {t' : Table Product}
    → restore_stock orders t ≡ ok t'
    → t' k ≡ Option.map (raise_stock (ordered k orders)) (t k)
unfolding restore_stock
restore_stock_lem k [] t h = rw (← ok-injective h) (sym (raise_stock_zero (t k)))
restore_stock_lem k (o ∷ orders) t h =
    let (u, first, rest) = >>=-eq-ok (restore_product o t) (restore_stock orders) h in
    restore_stock_lem k orders u rest
    ∙ ap (Option.map (raise_stock (ordered k orders))) (restore_product_lem k o t first)
    ∙ raise_stock_add (quantity_of k o) (ordered k orders) (t k)

-- Every product that the orders name is there, as the foreign key of `orders` promises.
abbrev pub HasProducts : Table Product → List Order → Type 0
HasProducts t = All λ o. (k : ℕ) → o.product_id ≡ some k → t k ≢ none

restore_product_total :
    (o : Order) (t : Table Product)
    → ((k : ℕ) → o.product_id ≡ some k → t k ≢ none)
    → (t' : Table Product) × (restore_product o t ≡ ok t')
unfolding restore_product
restore_product_total o t h = elim (Option-cases o.product_id) [
  | inl e ↦ (t, rw e)
  | inr (j, e) ↦ elim (Option-cases (t j)) [
    | inl missing ↦ absurd (h j e missing)
    | inr (p, found) ↦ elim (Bool-cases (ltb 0 (get_or o.quantity 0))) [
      | inl positive ↦ (put j (raise_stock (get_or o.quantity 0) p) t, rw (e, positive, found))
      | inr nothing ↦ (t, rw (e, nothing))
    ]
  ]
]

HasProducts-mono :
    (t u : Table Product) (orders : List Order)
    → ((k : ℕ) → t k ≢ none → u k ≢ none)
    → HasProducts t orders
    → HasProducts u orders
HasProducts-mono t u [] keep h = tt
HasProducts-mono t u (o ∷ orders) keep h =
    ((λ k e. keep k (h.0 k e)), HasProducts-mono t u orders keep h.1)

-- Giving back never fails while every product that the orders name is in the table.
pub restore_stock_total :
    (orders : List Order) (t : Table Product)
    → HasProducts t orders
    → (t' : Table Product) × (restore_stock orders t ≡ ok t')
unfolding restore_stock
restore_stock_total [] t h = (t, refl)
restore_stock_total (o ∷ orders) t h =
    let (u, first) = restore_product_total o t h.0 in
    let keep : (k : ℕ) → t k ≢ none → u k ≢ none =
      λ k. map-ne-none _ (t k) (u k) (restore_product_lem k o t first) in
    let (t', rest) = restore_stock_total orders u (HasProducts-mono t u orders keep h.1) in
    (t', rw first rest)
