-- ===== src/Discounts/Loop.antt =====
-- The loop over the sale prices
-- (src/modules/product-discount/cronjob/product-discount.cronjob.service.ts).
use mathlib.Core.Option
use lif_low_backend.Prelude.{
  AreDistinct, another, listed_here, listed_later, ℕ, ◌≡◌, refl, ◌∙◌, ℤ, true, Option, List, [],
  ◌∷◌, ◌==◌, if◌then◌else◌, contains, arith,
}
use lif_low_backend.Discounts.{Catalogue}
use lif_low_backend.Discounts.SalePrices.{
  PriceTally, reprice_product, reprice_products, recalculate_product_sale_prices,
}
use lif_low_backend.Discounts.Repriced.{repriced, remaining}
use lif_low_backend.Discounts.Rounds.{reprice_product-IsRound}

-- The products to come are as they were when the loop began.
abbrev IsAhead : Catalogue → List ℕ → Catalogue → Type 0
IsAhead before ks c =
    (j : ℕ)
    → contains j ks ≡ true
    → (c.products j ≡ before.products j) × (c.discounts j ≡ before.discounts j)

skip_here :
    {A : Type 0} (j k : ℕ) (ks : List ℕ) (t t' : ℕ → Option A) (f : ℕ → Option A)
    → t' j ≡ (if j == k then f j else t j)
    → (if contains j ks then f j else t' j) ≡ (if contains j (k ∷ ks) then f j else t j)
skip_here j k ks t t' f h = ground arith

module _ (rounded : ℤ → ℕ → ℤ) (now : ℕ) (before : Catalogue) where
  -- The loop goes through at every product of the list, and at nothing else.
  reprice_products-IsRound :
      (ks : List ℕ) (c : Catalogue) (n : PriceTally)
      → AreDistinct ks
      → IsAhead before ks c
      → ((j : ℕ)
          → (reprice_products rounded now before ks (c, n)).0.products j ≡ (
              if contains j ks
              then Option.map (repriced rounded now before j) (before.products j)
              else c.products j))
        × ((j : ℕ)
            → (reprice_products rounded now before ks (c, n)).0.discounts j
              ≡ (if contains j ks then remaining now before j else c.discounts j))
        × ((reprice_products rounded now before ks (c, n)).0.offers ≡ c.offers)
        × ((reprice_products rounded now before ks (c, n)).1.errors ≡ n.errors)
  unfolding reprice_products
  reprice_products-IsRound [] c n d a = (λ j. refl, λ j. refl, refl, refl)
  reprice_products-IsRound (k ∷ ks) c n d a =
      let (c', n') = reprice_product rounded now before k (c, n) in
      let first = a k (listed_here k ks) in
      let (p, q, o, e) = reprice_product-IsRound rounded now before k c n first.0 first.1 in
      let (p', q', o', e') = reprice_products-IsRound ks c' n' d.1 (λ j i.
        let out = another j k ks d.0 i in
        let was = a j (listed_later j k ks i) in (p j ∙ rw out was.0, q j ∙ rw out was.1)) in
      (
        λ j.
            p' j
            ∙ skip_here j k ks c.products c'.products
                (λ i. Option.map (repriced rounded now before i) (before.products i)) (p j),
        λ j. q' j ∙ skip_here j k ks c.discounts c'.discounts (λ i. remaining now before i) (q j),
        o' ∙ o,
        e' ∙ e,
      )

  -- The whole recalculation, from the catalogue that it reads.
  pub recalculate_product_sale_prices_lem :
      (ks : List ℕ)
      → AreDistinct ks
      → ((j : ℕ)
          → (recalculate_product_sale_prices rounded ks now before).0.products j ≡ (
              if contains j ks
              then Option.map (repriced rounded now before j) (before.products j)
              else before.products j))
        × ((j : ℕ)
            → (recalculate_product_sale_prices rounded ks now before).0.discounts j
              ≡ (if contains j ks then remaining now before j else before.discounts j))
        × ((recalculate_product_sale_prices rounded ks now before).0.offers ≡ before.offers)
        × ((recalculate_product_sale_prices rounded ks now before).1.errors ≡ 0)
  unfolding recalculate_product_sale_prices
  recalculate_product_sale_prices_lem ks d =
      reprice_products-IsRound ks before (record { processed = 0; updated = 0; errors = 0 }) d
        (λ j i. (refl, refl))
