-- ===== src/Discounts/Repriced.antt =====
-- What one round of the loop over the sale prices does
-- (src/modules/product-discount/cronjob/product-discount.cronjob.service.ts).
use mathlib.Core.Option
use lif_low_backend.Prelude.{
  ℕ, ◌≡◌, refl, ap, sym, ◌∙◌, ℤ, Bool, true, false, ◌&&◌, Option, none, some, ◌==◌, if◌then◌else◌,
  inl, inr, arith, Bool-cases, Option-cases, ==_iff,
}
use lif_low_backend.Schema.{Table, put, ok}
use lif_low_backend.Discounts.{
  Prices, ProductDiscount, Catalogue, same_ℤ, differs, with_sale_price, active_discount,
  active_offer, discount_expired, set_price, delete, sale_price_of, restored_sale_price,
}
use lif_low_backend.Discounts.SalePrices.{PriceTally, has_promotion, one_price, is_expired}

same_ℤ-eq : (a b : ℤ) → same_ℤ a b ≡ true → a ≡ b
same_ℤ-eq a b h = ground arith

same_price : (p : Prices) (z : ℤ) → differs p.sale_price z ≡ false → with_sale_price z p ≡ p
same_price p z h = elim (Option-cases p.sale_price) [
  | inl e ↦ cc (rw e at h)
  | inr (a, e) ↦
      let q : a ≡ z = same_ℤ-eq a z (ground (arith, rw e at h)) in
      ap (λ s. record p { sale_price = s }) (sym (e ∙ ap some q))
]

-- Writing a price succeeds for a product that is there.
pub set_price_lem :
    (k : ℕ) (p : Prices) (z : ℤ) (t : Table Prices)
    → t k ≡ some p
    → (t' : Table Prices) × (set_price k p z t ≡ ok t')
      × ((j : ℕ) → t' j ≡ (if j == k then some (with_sale_price z p) else t j))
set_price_lem k p z t e = elim (Bool-cases (differs p.sale_price z)) [
  | inl changed ↦ (put k (with_sale_price z p) t, rw (changed, e), λ j. refl)
  | inr same ↦ (
    t,
    rw same,
    λ j. elim (Bool-cases (j == k)) [
      | inl here ↦ rw here (rw ((==_iff j k).0 here) (e ∙ ap some (sym (same_price p z same))))
      | inr other ↦ rw other
    ],
  )
]

delete_lem {ℓ} :
    {V : Type ℓ} (k : ℕ) (t : Table V) {v : V}
    → t k ≡ some v
    → delete k t ≡ ok (λ j. if j == k then none else t j)
delete_lem k t e = rw e

-- The price that a round computes.
abbrev pub new_price : (ℤ → ℕ → ℤ) → ℕ → Catalogue → ℕ → ℕ → ℤ
new_price rounded now before k consumer_price =
    if is_expired now k before
    then restored_sale_price rounded now consumer_price (before.discounts k) (before.offers k)
    else sale_price_of rounded consumer_price (active_discount (before.discounts k))
        (active_offer (before.offers k))

-- What a round makes of the product that it visits.
abbrev pub repriced : (ℤ → ℕ → ℤ) → ℕ → Catalogue → ℕ → Prices → Prices
repriced rounded now before k p = elim p.consumer_price [
  | none ↦ p
  | some consumer_price ↦
      if has_promotion k before
      then with_sale_price (new_price rounded now before k consumer_price) p
      else p
]

abbrev pub is_priced : Option Prices → Bool
is_priced none = false
is_priced (some p) = elim p.consumer_price [ none ↦ false | some _ ↦ true ]

-- What a round leaves of its discount.
abbrev pub remaining : ℕ → Catalogue → ℕ → Option ProductDiscount
remaining now before k =
    if is_priced (before.products k) && discount_expired now (before.discounts k)
    then none
    else before.discounts k

-- A round that goes through at its product and at nothing else.
abbrev pub IsRound :
    (ℤ → ℕ → ℤ) → ℕ → Catalogue → ℕ → Catalogue × PriceTally → Catalogue × PriceTally → Type 0
IsRound rounded now before k s s' =
    ((j : ℕ)
      → s'.0.products j ≡ (
          if j == k
          then Option.map (repriced rounded now before j) (before.products j)
          else s.0.products j))
    × ((j : ℕ) → s'.0.discounts j ≡ (if j == k then remaining now before j else s.0.discounts j))
    × (s'.0.offers ≡ s.0.offers)
    × (s'.1.errors ≡ s.1.errors)

pub one_price-errors : (b : Bool) (n : PriceTally) → (one_price b n).errors ≡ n.errors
one_price-errors true n = refl
one_price-errors false n = refl

pub at_k :
    {A : Type 0} (k : ℕ) (t t' : Table A) (f : ℕ → Option A) {a : Option A}
    → ((j : ℕ) → t' j ≡ (if j == k then a else t j))
    → a ≡ f k
    → (j : ℕ) → t' j ≡ (if j == k then f j else t j)
at_k k t t' f {a} h e j = elim (Bool-cases (j == k)) [
  | inl same ↦ h j ∙ rw same (let i : j ≡ k = (==_iff j k).0 same in rw i e)
  | inr other ↦ h j ∙ rw other
]

pub stays :
    {A : Type 0} (k : ℕ) (t : Table A) (a : Option A)
    → t k ≡ a
    → (j : ℕ) → t j ≡ (if j == k then a else t j)
stays k t a e j = elim (Bool-cases (j == k)) [
  | inl same ↦ rw same (rw ((==_iff j k).0 same) e)
  | inr other ↦ rw other
]
