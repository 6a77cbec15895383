-- ===== src/Discounts/SalePrices.antt =====
-- The sale prices: `recalculateProductSalePrices`, `recalculateProductSalePricesById` and the
-- nightly job of src/modules/product-discount/cronjob/product-discount.cronjob.service.ts, and the
-- update of one status.
use lif_low_backend.Prelude.{
  ℕ, suc, ℤ, Bool, true, false, ◌||◌, none, some, List, [], ◌∷◌, if◌then◌else◌,
}
use lif_low_backend.Schema.{
  Result, ok, err, ◌>>=◌, or_throw, internal, update, product_not_found, consumer_price_not_set,
  discount_not_found,
}
use lif_low_backend.Discounts.{
  Prices, Catalogue, active_discount, active_offer, discount_expired, offer_expired, differs,
  sale_price_of, restored_sale_price, restore_price, recalculate_price, with_sale_price,
  update_all_product_discount_statuses, update_all_product_special_offer_statuses, same_status,
  set_discount_status, set_offer_status, discount_should, offer_should,
}

-- What `recalculateProductSalePrices` counts.
pub record PriceTally : Type 0 where
  pub processed : ℕ
  pub updated : ℕ
  pub errors : ℕ

-- The loop over the products takes those with a discount or a special offer.
abbrev pub has_promotion : ℕ → Catalogue → Bool
has_promotion k c = elim (c.discounts k) [
  | some _ ↦ true
  | none ↦ elim (c.offers k) [ some _ ↦ true | none ↦ false ]
]

abbrev pub one_price : Bool → PriceTally → PriceTally
one_price true n = record n { processed = suc n.processed; updated = suc n.updated }
one_price false n = record n { processed = suc n.processed }

-- The end of a round: an error is counted and skipped.
abbrev pub counted : Bool → Catalogue → PriceTally → Result Catalogue → Catalogue × PriceTally
counted changed c n (err _) = (c, record n { errors = suc n.errors })
counted changed c n (ok c') = (c', one_price changed n)

abbrev pub is_expired : ℕ → ℕ → Catalogue → Bool
is_expired now k before =
    offer_expired now (before.offers k) || discount_expired now (before.discounts k)

-- The `try` that logs an error of the recalculation.
abbrev pub or_logged : Catalogue → Result (Catalogue × ℤ) → Catalogue
or_logged c (err _) = c
or_logged c (ok (c', _)) = c'

abbrev pub has_consumer_price : ℕ → Catalogue → Bool
has_consumer_price k c = elim (c.products k) [
  | none ↦ false
  | some p ↦ elim p.consumer_price [ none ↦ false | some _ ↦ true ]
]

module _ (rounded : ℤ → ℕ → ℤ) where
  -- A round for a product that has a consumer price.
  unfoldable pub reprice :
      ℕ → Catalogue → ℕ → Prices → ℕ → Catalogue × PriceTally → Catalogue × PriceTally
  reprice now before k p consumer_price (c, n) =
      if is_expired now k before
      then counted
          (differs p.sale_price
            (restored_sale_price rounded now consumer_price (before.discounts k) (before.offers k)))
          c n (restore_price rounded now k p consumer_price before c)
      else counted
          (differs p.sale_price (
            sale_price_of rounded consumer_price (active_discount (before.discounts k))
              (active_offer (before.offers k))))
          c n (recalculate_price rounded k p consumer_price before c)

  unfoldable pub reprice_product :
      ℕ → Catalogue → ℕ → Catalogue × PriceTally → Catalogue × PriceTally
  reprice_product now before k (c, n) = elim (before.products k) [
    | none ↦ (c, n)
    | some p ↦
        if has_promotion k before
        then elim p.consumer_price [
          | none ↦ (c, record n { processed = suc n.processed })
          | some consumer_price ↦ reprice now before k p consumer_price (c, n)
        ]
        else (c, n)
  ]

  unfoldable pub reprice_products :
      ℕ → Catalogue → List ℕ → Catalogue × PriceTally → Catalogue × PriceTally
  reprice_products now before [] s = s
  reprice_products now before (k ∷ ks) s =
      reprice_products now before ks (reprice_product now before k s)

  unfoldable pub recalculate_product_sale_prices : List ℕ → ℕ → Catalogue → Catalogue × PriceTally
  recalculate_product_sale_prices ids now c =
      reprice_products now c ids (c, record { processed = 0; updated = 0; errors = 0 })

  unfoldable pub recalculate_product_sale_prices_by_id : ℕ → Catalogue → Result (Catalogue × ℤ)
  recalculate_product_sale_prices_by_id k c =
      or_throw (c.products k) (internal product_not_found) >>= λ p.
      or_throw p.consumer_price (internal consumer_price_not_set) >>= λ consumer_price.
      let z =
        sale_price_of rounded consumer_price (active_discount (c.discounts k))
          (active_offer (c.offers k)) in
      update k (with_sale_price z) c.products >>= λ products.
      ok (record c { products = products }, z)

  -- The job of every night at one: each step reads the clock for itself, and the list of all
  -- products, discounts or offers.
  unfoldable pub handle_scheduled_product_discount_status_update :
      List ℕ → ℕ → ℕ → ℕ → Catalogue → Catalogue
  handle_scheduled_product_discount_status_update ids t1 t2 t3 c =
      let c1 = (update_all_product_discount_statuses ids t1 c).0 in
      let c2 = (update_all_product_special_offer_statuses ids t2 c1).0 in
      (recalculate_product_sale_prices ids t3 c2).0

  abbrev pub recalculated : ℕ → Catalogue → Catalogue
  recalculated k c =
      if has_consumer_price k c then or_logged c (recalculate_product_sale_prices_by_id k c) else c

  -- The new status, and whether it changed.
  unfoldable pub update_product_discount_status :
      ℕ → ℕ → Catalogue → Result (Catalogue × Bool × Bool)
  update_product_discount_status k now c =
      or_throw (c.discounts k) (internal discount_not_found) >>= λ d.
      if same_status d.status (discount_should now d)
      then ok (c, d.status, false)
      else update k (set_discount_status (discount_should now d)) c.discounts >>= λ t.
          ok (recalculated k (record c { discounts = t }), discount_should now d, true)

  unfoldable pub update_product_special_offer_status :
      ℕ → ℕ → Catalogue → Result (Catalogue × Bool × Bool)
  update_product_special_offer_status k now c =
      or_throw (c.offers k) (internal discount_not_found) >>= λ o.
      if same_status o.status (offer_should now o)
      then ok (c, o.status, false)
      else update k (set_offer_status (offer_should now o)) c.offers >>= λ t.
          ok (recalculated k (record c { offers = t }), offer_should now o, true)
