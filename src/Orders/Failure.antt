-- ===== src/Orders/Failure.antt =====
-- What becomes of `create` in src/modules/order/order.service.ts.
use lif_low_backend.Prelude.{ℕ, zero, suc, ◌≡◌, refl, List, ◌∷◌, Bool-cases, Option-cases, inl, inr}
use lif_low_backend.Schema.{
  Error, Result-cases, err, internal, no_unique_number, failed_to_create_order,
}
use lif_low_backend.Orders.Numbers.{
  Numbers, is_taken, generate_order_number, generate_unique_order_number,
}
use lif_low_backend.Orders.Creation.{
  CreateOrder, Rows, serial_of, insert_orders, create_orders_tx, create,
}

-- The one error of the search for a number.
no_number :
    (left group : ℕ) (numbers : Numbers) {e : Error}
    → generate_unique_order_number left group numbers ≡ err e
    → e ≡ internal no_unique_number
unfolding generate_unique_order_number
no_number zero group numbers h = cc
no_number (suc left) group numbers h =
    elim (Bool-cases (is_taken group (generate_order_number group numbers) numbers)) [
      | inl taken ↦ no_number left group numbers (rw taken at h)
      | inr free ↦ cc (rw free at h)
    ]

no_serial :
    (group : ℕ) (numbers : Numbers) (o : CreateOrder) {e : Error}
    → serial_of group numbers o ≡ err e
    → e ≡ internal no_unique_number
no_serial group numbers o h = elim (Option-cases o.serial) [
  | inl e ↦ no_number 5 group numbers (rw e at h)
  | inr (n, e) ↦ cc (rw e at h)
]

-- `create` of the order service makes no order: a request with at least one order ends in the
-- internal error "Failed to create order", whatever else is in the request and in the database.
pub create_fails :
    (after_rate : ℕ → ℕ → ℕ) (o : CreateOrder) (os : List CreateOrder) (points user_id : ℕ)
    (coupon_ids : List ℕ) (group now : ℕ) (s : Rows)
    → create after_rate (o ∷ os) points user_id coupon_ids group now s
      ≡ err (internal failed_to_create_order)
unfolding create create_orders_tx insert_orders
create_fails after_rate o os points user_id coupon_ids group now s =
    elim (Option-cases (s.0.users user_id)) [
      | inl nobody ↦ rw nobody refl
      | inr (u, there) ↦ elim (Result-cases (serial_of group s.1 o)) [
        | inl (n, e) ↦ rw (there, e) refl
        | inr (f, e) ↦ rw (there, e, no_serial group s.1 o e) refl
      ]
    ]
