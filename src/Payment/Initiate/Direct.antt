-- ===== src/Payment/Initiate/Direct.antt =====
-- What a direct payment for one product promises: `initiatePaymentV2`.
use lif_low_backend.Prelude.{
  ℕ, ◌<◌, pos, ◌≤ℤ◌, ◌≡◌, refl, some, get_or, Option-cases, Bool-cases, ltb, inl, inr,
}
use lif_low_backend.Schema.{Product, CartItem, Db, Table, Error, Result-cases, ok, err}
use lif_low_backend.Payment.Initiate.{
  InitiateRequest, Amounts, initiate_product, initiate_payment_v2,
}

-- The one line: the product at its price, and enough of it in stock.
pub record IsLine (product_id quantity : ℕ) (products : Table Product) (item : CartItem)
    : Type 0 where
  pub p : Product
  pub found : products product_id ≡ some p
  pub product : item.product_id ≡ product_id
  pub amount : item.quantity ≡ quantity
  pub price_is : p.sale_price ≡ some item.sale_price
  pub priced : 0 < item.sale_price
  pub in_stock : pos quantity ≤ℤ get_or p.origin (pos 0)

-- A direct payment that fails to be initiated, for whatever reason, changes nothing.
pub initiate_payment_v2-unchanged :
    (draw : ℕ → ℕ) (req : InitiateRequest) (product_id quantity : ℕ) (db : Db) {e : Error}
    → (initiate_payment_v2 draw req product_id quantity db).0 ≡ err e
    → (initiate_payment_v2 draw req product_id quantity db).1 ≡ db
unfolding initiate_payment_v2
initiate_payment_v2-unchanged draw req product_id quantity db {e} h =
    elim (Option-cases req.address) [
      | inl none_given ↦ rw (none_given, initiate_payment_v2) refl
      | inr (address, here) ↦ elim (Bool-cases (ltb quantity 1)) [
        | inl less ↦ rw (here, less, initiate_payment_v2) refl
        | inr enough ↦
            elim (Result-cases (initiate_product draw req address product_id quantity db)) [
              | inr (f, fails) ↦ rw (here, enough, fails, initiate_payment_v2) refl
              | inl (r, goes) ↦
                  absurd (clash (r.0, r.1) (rw (here, enough, goes, initiate_payment_v2) at h))
            ]
      ]
    ]
  where
    clash : (r : ℕ × Amounts) → ok r ≡ err e → ⊥
    clash r q = cc
