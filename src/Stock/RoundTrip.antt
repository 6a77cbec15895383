-- ===== src/Stock/RoundTrip.antt =====
-- What a confirmation takes and a cancellation gives back, one after the other.
use mathlib.Core.Option
use lif_low_backend.Prelude.{
  ℕ, ℤ, pos, ◌+ℤ◌, ◌-ℤ◌, int_laws, ◌≡◌, refl, inl, inr, Option, none, some, List, arith,
  Option-cases, ◌∙◌, ap,
}
use lif_low_backend.Schema.{Product, Order, Table, ok}
use lif_low_backend.Stock.{lower_origin, raise_stock, take_stock, restore_stock}
use lif_low_backend.Stock.Laws.{ordered, take_stock_lem, restore_stock_lem}

abbrev pub raise_stock_quantity : ℕ → Product → Product
raise_stock_quantity n p = record p {
  stock_quantity = Option.map (λ z. z +ℤ pos n) p.stock_quantity;
}

sub_add : (z : ℤ) (n : ℕ) → z -ℤ pos n +ℤ pos n ≡ z
sub_add z n = omega int_laws

-- Raising after lowering, for one product.
pub raise-lower :
    (n : ℕ) (o : Option Product)
    → Option.map (raise_stock n) (Option.map (lower_origin n) o)
      ≡ Option.map (raise_stock_quantity n) o
raise-lower n none = refl
raise-lower n (some p) = elim (Option-cases p.origin) [
  | inl e ↦ ground arith
  | inr (z, e) ↦ ground (arith, sub_add z n)
]

-- Giving back after taking, over the same orders, restores the stock figure `origin` exactly; but
-- the display quantity `stockQuantity`, which a confirmation does not lower, comes out higher by
-- all that was ordered.
pub restore_stock-take_stock :
    (k : ℕ) (orders : List Order) (t : Table Product) {t' : Table Product}
    → restore_stock orders (take_stock orders t) ≡ ok t'
    → t' k ≡ Option.map (raise_stock_quantity (ordered k orders)) (t k)
restore_stock-take_stock k orders t h =
    restore_stock_lem k orders (take_stock orders t) h
    ∙ ap (Option.map (raise_stock (ordered k orders))) (take_stock_lem k orders t)
    ∙ raise-lower (ordered k orders) (t k)
