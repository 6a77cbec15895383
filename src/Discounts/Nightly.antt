-- ===== src/Discounts/Nightly.antt =====
-- What the whole nightly job on promotions does
-- (src/modules/product-discount/cronjob/product-discount.cronjob.service.ts).
use mathlib.Core.Option
use lif_low_backend.Prelude.{
  AreDistinct, ℕ, ◌≡◌, refl, ap, ◌∙◌, ℤ, true, Option, none, some, List, if◌then◌else◌, contains,
  inl, inr, Option-cases,
}
use lif_low_backend.Schema.{Table}
use lif_low_backend.Discounts.{
  Prices, ProductDiscount, ProductSpecialOffer, Catalogue, with_sale_price, discount_expired,
  update_all_product_discount_statuses, update_all_product_special_offer_statuses,
}
use lif_low_backend.Discounts.SalePrices.{
  has_promotion, handle_scheduled_product_discount_status_update,
}
use lif_low_backend.Discounts.Statuses.{
  settled_discount, settled_offer, update_all_product_discount_statuses_lem,
  update_all_product_special_offer_statuses_lem,
}
use lif_low_backend.Discounts.Repriced.{repriced, remaining}
use lif_low_backend.Discounts.Promised.{
  discount_runs, offer_runs, kept_if, promised_price, HasRate, IsRate, price-promised,
}
use lif_low_backend.Discounts.Loop.{recalculate_product_sale_prices_lem}

-- After the night a product that has a consumer price and a promotion is sold at the price that it
-- is promised, with its other price as before; its discount is gone if it has ended, and else
-- active just if its period includes the moment; and its special offer stays, active just if its
-- period includes the moment.
abbrev pub IsPromised : (ℤ → ℕ → ℤ) → ℕ → ℕ → ℕ → ℕ → Prices → ℕ → Catalogue → Catalogue → Type 0
IsPromised rounded t1 t2 t3 k p consumer_price c c' =
    (c'.products k
      ≡ some (
          with_sale_price
            (promised_price rounded consumer_price (kept_if (discount_runs t1 t3) (c.discounts k))
              (kept_if (offer_runs t2 t3) (c.offers k)))
            p))
    × (c'.discounts k ≡ (
        if discount_expired t3 (c.discounts k)
        then none
        else Option.map (settled_discount t1) (c.discounts k)))
    × (c'.offers k ≡ Option.map (settled_offer t2) (c.offers k))

module _ (ids : List ℕ) (t1 t2 : ℕ) (c : Catalogue) where
  -- The catalogue after the two loops over the statuses.
  abbrev with_statuses : Catalogue
  with_statuses =
      (update_all_product_special_offer_statuses ids t2
        (update_all_product_discount_statuses ids t1 c).0).0

  with_statuses-products : with_statuses.products ≡ c.products
  unfolding update_all_product_special_offer_statuses update_all_product_discount_statuses
  with_statuses-products = refl

  with_statuses-discounts :
      (k : ℕ)
      → contains k ids ≡ true
      → with_statuses.discounts k ≡ Option.map (settled_discount t1) (c.discounts k)
  with_statuses-discounts k h =
      kept k ∙ ((update_all_product_discount_statuses_lem ids t1 c).0 k ∙ rw h refl)
    where
      kept :
          (k : ℕ)
          → with_statuses.discounts k
            ≡ (update_all_product_discount_statuses ids t1 c).0.discounts k
      kept k = unfold update_all_product_special_offer_statuses in refl

  with_statuses-offers :
      (k : ℕ)
      → contains k ids ≡ true
      → with_statuses.offers k ≡ Option.map (settled_offer t2) (c.offers k)
  with_statuses-offers k h =
      (update_all_product_special_offer_statuses_lem ids t2
          (update_all_product_discount_statuses ids t1 c).0).0
        k
      ∙ rw h (unfold update_all_product_discount_statuses in refl)

promotion_kept :
    (k : ℕ) (c b : Catalogue) (t1 t2 : ℕ)
    → b.discounts k ≡ Option.map (settled_discount t1) (c.discounts k)
    → b.offers k ≡ Option.map (settled_offer t2) (c.offers k)
    → has_promotion k c ≡ true
    → has_promotion k b ≡ true
promotion_kept k c b t1 t2 d o h = elim (Option-cases (c.discounts k)) [
  | inr (x, e) ↦ rw (d, e, has_promotion) refl
  | inl e ↦ elim (Option-cases (c.offers k)) [
    | inr (y, f) ↦ rw (d, e, o, f, has_promotion) refl
    | inl f ↦ cc (rw (e, f, has_promotion) at h)
  ]
]

expired_kept :
    (t1 t3 : ℕ) (d : Option ProductDiscount)
    → discount_expired t3 (Option.map (settled_discount t1) d) ≡ discount_expired t3 d
expired_kept t1 t3 none = refl
expired_kept t1 t3 (some d) = refl

abbrev priced : Option ℕ → ℤ → Prices
priced consumer_price z = record { consumer_price = consumer_price; sale_price = some z }

price_at :
    (rounded : ℤ → ℕ → ℤ) (t1 t2 t3 k : ℕ) (p : Prices) (c b : Catalogue) {cp : ℕ}
    → IsRate rounded
    → HasRate (c.discounts k)
    → p.consumer_price ≡ some cp
    → has_promotion k b ≡ true
    → b.discounts k ≡ Option.map (settled_discount t1) (c.discounts k)
    → b.offers k ≡ Option.map (settled_offer t2) (c.offers k)
    → repriced rounded t3 b k p
      ≡ with_sale_price
          (promised_price rounded cp
            (kept_if (discount_runs t1 t3) (c.discounts k))
            (kept_if (offer_runs t2 t3) (c.offers k)))
          p
price_at rounded t1 t2 t3 k p c b {cp} rate h q has d o =
    rw (q, has, d, o)
      (ap (λ (z : ℤ). priced (some cp) z)
        (price-promised rounded cp t1 t2 t3 (c.discounts k) (c.offers k) rate h))

remaining_at :
    (t1 t3 k : ℕ) (p : Prices) (c b : Catalogue) {cp : ℕ}
    → b.products k ≡ some p
    → p.consumer_price ≡ some cp
    → b.discounts k ≡ Option.map (settled_discount t1) (c.discounts k)
    → remaining t3 b k ≡ (
        if discount_expired t3 (c.discounts k)
        then none
        else Option.map (settled_discount t1) (c.discounts k))
remaining_at t1 t3 k p c b there q d =
    rw (there, q, d) (rw (expired_kept t1 t3 (c.discounts k)) refl)

-- A night at which the clock reads `t1`, `t2` and `t3`: every product of the list that has a
-- consumer price and a promotion is then sold at the price that it is promised, its discount is
-- gone if it has ended and else set by its period, and its special offer stays and is set by its
-- period. It is assumed that the rate of the product's discount, if it has one, is at most 100, that
-- such a rate makes no price negative, and that the list names no product twice.
pub night-IsPromised :
    (rounded : ℤ → ℕ → ℤ) (ids : List ℕ) (t1 t2 t3 k : ℕ) (p : Prices) (c : Catalogue) {cp : ℕ}
    → IsRate rounded
    → AreDistinct ids
    → contains k ids ≡ true
    → c.products k ≡ some p
    → p.consumer_price ≡ some cp
    → has_promotion k c ≡ true
    → HasRate (c.discounts k)
    → IsPromised rounded t1 t2 t3 k p cp c
        (handle_scheduled_product_discount_status_update rounded ids t1 t2 t3 c)
unfolding handle_scheduled_product_discount_status_update
night-IsPromised rounded ids t1 t2 t3 k p c {cp} rate distinct listed there q has h =
    let b = with_statuses ids t1 t2 c in
    let here : b.products k ≡ some p =
      ap (λ (t : Table Prices). t k) (with_statuses-products ids t1 t2 c) ∙ there in
    let d = with_statuses-discounts ids t1 t2 c k listed in
    let o = with_statuses-offers ids t1 t2 c k listed in
    let (products, discounts, offers, _) =
      recalculate_product_sale_prices_lem rounded t3 b ids distinct in
    (
      products k
          ∙ rw (listed, here)
              (ap some (
                price_at rounded t1 t2 t3 k p c b rate h q (promotion_kept k c b t1 t2 d o has) d
                  o)),
      discounts k ∙ rw listed (remaining_at t1 t3 k p c b here q d),
      ap (λ (t : Table ProductSpecialOffer). t k) offers ∙ o,
    )
