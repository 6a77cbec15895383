-- ===== src/Stock.antt =====
-- The stock of the products in src/modules/payment/payment.service.ts: what a confirmed payment
-- takes (step 2.10 of `confirmPayment`) and what a cancellation or a return gives back (steps 1-2
-- of `cancelPayment`, 6.1-6.2 of `returnPayment`). A null stock stays null under an increment.
pub mod Laws
pub mod RoundTrip
use mathlib.Core.Option
use lif_low_backend.Prelude.{
  ℕ, ◌+◌, ℤ, pos, ◌+ℤ◌, ◌-ℤ◌, Bool, Option, none, some, List, [], ◌∷◌, ltb, ◌==◌, if◌then◌else◌,
  get_or,
}
use lif_low_backend.Schema.{Product, Order, Table, put, Result, ok, ◌>>=◌, update}

-- `map.set(k, (map.get(k) ?? 0) + n)` on a `Map` in insertion order.
abbrev pub add_quantity : ℕ → ℕ → List (ℕ × ℕ) → List (ℕ × ℕ)
add_quantity k n [] = (k, n) ∷ []
add_quantity k n ((j, m) ∷ rest) =
    if j == k then (j, m + n) ∷ rest else (j, m) ∷ add_quantity k n rest

abbrev pub add_order : Order → List (ℕ × ℕ) → List (ℕ × ℕ)
add_order o quantities = elim o.product_id [
  | none ↦ quantities
  | some k ↦
      let n = get_or o.quantity 0 in if ltb 0 n then add_quantity k n quantities else quantities
]

-- The first loop of step 2.10: the quantity of each product over all orders.
unfoldable pub product_quantities : List (ℕ × ℕ) → List Order → List (ℕ × ℕ)
product_quantities quantities [] = quantities
product_quantities quantities (o ∷ orders) = product_quantities (add_order o quantities) orders

abbrev pub lower_origin : ℕ → Product → Product
lower_origin n p = record p { origin = Option.map (λ z. z -ℤ pos n) p.origin }

abbrev pub raise_stock : ℕ → Product → Product
raise_stock n p = record p {
  origin = Option.map (λ z. z +ℤ pos n) p.origin;
  stock_quantity = Option.map (λ z. z +ℤ pos n) p.stock_quantity;
}

-- `updateMany`: no product of this number is no error.
abbrev pub lower_product : ℕ → ℕ → Table Product → Table Product
lower_product k n t j = if j == k then Option.map (lower_origin n) (t j) else t j

-- The second loop of step 2.10.
unfoldable pub lower_products : List (ℕ × ℕ) → Table Product → Table Product
lower_products [] t = t
lower_products ((k, n) ∷ quantities) t = lower_products quantities (lower_product k n t)

unfoldable pub take_stock : List Order → Table Product → Table Product
take_stock orders t = lower_products (product_quantities [] orders) t

-- One round of the loop that gives back: `continue` leaves the table alone.
unfoldable pub restore_product : Order → Table Product → Result (Table Product)
restore_product o t = elim o.product_id [
  | none ↦ ok t
  | some k ↦ let n = get_or o.quantity 0 in if ltb 0 n then update k (raise_stock n) t else ok t
]

unfoldable pub restore_stock : List Order → Table Product → Result (Table Product)
restore_stock [] t = ok t
restore_stock (o ∷ orders) t = restore_product o t >>= restore_stock orders
