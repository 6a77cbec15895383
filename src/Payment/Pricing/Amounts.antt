-- ===== src/Payment/Pricing/Amounts.antt =====
-- What the checks of points and of stock let through, and the equation of the final amount.
use lif_low_backend.Prelude.{
  ℕ, ◌+◌, ◌≤◌, ◌<◌, ℤ, pos, ◌≤ℤ◌, ltb_ℤ, ◌≡◌, Option, some, List, [], ◌∷◌, arith, if◌then◌else◌,
  get_or, All, Bool-cases, Option-cases, inl, inr,
}
use lif_low_backend.Schema.{CartItem, Product, Table, ok, err, bad_request, not_enough_quantity}
use lif_low_backend.Payment.Pricing.{check_points, check_stock, final_amount_of}

-- The final amount is the whole amount and the fee less the discount, none of it lost to a
-- subtraction that stops at 0, and at least the minimum.
pub final_amount_of-eq-ok :
    (original discount fee minimum : ℕ) {final : ℕ}
    → final_amount_of original discount fee minimum ≡ ok final
    → (final + discount ≡ original + fee) × (minimum ≤ final)
unfolding final_amount_of
final_amount_of-eq-ok original discount fee minimum h = ground arith

-- The check of points passes just where no points are asked for, or a balance that is not 0
-- covers them.
pub check_points-eq-ok :
    (available : Option ℤ) (points : ℕ) {r : Unit {0}}
    → check_points available points ≡ ok r
    → 0 < points
    → pos points ≤ℤ get_or available (pos 0)
unfolding check_points
check_points-eq-ok available points h some_points = ground arith

-- A product that has a stock figure has enough for the item.
abbrev pub HasStock : Table Product → CartItem → Type 0
HasStock products i =
    (p : Product) (z : ℤ) → products i.product_id ≡ some p → p.origin ≡ some z → pos i.quantity ≤ℤ z

first_HasStock :
    (products : Table Product) (i : CartItem) (is : List CartItem)
    → check_stock products (i ∷ is) ≡ ok tt
    → HasStock products i
unfolding check_stock
first_HasStock products i is h p z ep ez =
    let tested : (if ltb_ℤ z (pos i.quantity)
          then err (bad_request not_enough_quantity)
          else check_stock products is)
        ≡ ok tt =
      rw (ep, ez, check_stock) at h in
    ground arith

rest_passes :
    (products : Table Product) (i : CartItem) (is : List CartItem)
    → check_stock products (i ∷ is) ≡ ok tt
    → check_stock products is ≡ ok tt
unfolding check_stock
rest_passes products i is h = elim (Option-cases (products i.product_id)) [
  | inl e ↦ rw (e, check_stock) at h
  | inr (p, e) ↦ elim (Option-cases p.origin) [
    | inl f ↦ rw (e, f, check_stock) at h
    | inr (z, f) ↦ elim (Bool-cases (ltb_ℤ z (pos i.quantity))) [
      | inl less ↦ absurd (refused (rw (e, f, less, check_stock) at h))
      | inr enough ↦ rw (e, f, enough, check_stock) at h
    ]
  ]
]
  where
    refused : err (bad_request not_enough_quantity) ≡ ok (tt {0}) → ⊥
    refused q = cc

-- Items that pass the check of the stock find enough of it, each for itself.
pub check_stock-HasStock :
    (products : Table Product) (items : List CartItem)
    → check_stock products items ≡ ok tt
    → All (HasStock products) items
check_stock-HasStock products [] h = tt
check_stock-HasStock products (i ∷ is) h =
    (first_HasStock products i is h, check_stock-HasStock products is (rest_passes products i is h))
