-- ===== src/Discounts.antt =====
-- Promotions on products: the rows of src/modules/product-discount, and the nightly job of its
-- cronjob/product-discount.cronjob.service.ts that sets their statuses and the sale prices.
--
-- A discount and a special offer belong to one product each, by a unique column, so that their
-- tables are keyed by the product. `ids` lists the products that a query goes through. The price
-- after a rate, `Math.floor(price * (1 - rate / 100))`, is computed in doubles and is an argument.
pub mod SalePrices
pub mod Statuses
pub mod Repriced
pub mod Rounds
pub mod Promised
pub mod Loop
pub mod Nightly
pub mod Offers
pub mod Service
pub mod Laws
use mathlib.Core.Option
use lif_low_backend.Prelude.{
  ℕ, suc, ◌+◌, ℤ, pos, pos_part, neg_part, Bool, true, false, not, ◌&&◌, ◌||◌, Option, none, some,
  List, [], ◌∷◌, ltb, leb, ◌==◌, if◌then◌else◌, get_or,
}
use lif_low_backend.Schema.{
  Table, put, Result, ok, err, ◌>>=◌, or_throw, internal, update, p2025, product_not_found,
  consumer_price_not_set,
}

-- The two prices of a product.
pub record Prices : Type 0 where
  pub consumer_price : Option ℕ
  pub sale_price : Option ℤ

pub record ProductDiscount : Type 0 where
  pub status : Bool
  pub discount_rate : ℕ
  pub discount_start_date : Option ℕ
  pub discount_end_date : Option ℕ

pub record ProductSpecialOffer : Type 0 where
  pub status : Bool
  pub discount_amount : ℕ
  pub special_price_applied : Option ℤ
  pub start_date : Option ℕ
  pub end_date : Option ℕ

pub record Catalogue : Type 0 where
  pub products : Table Prices
  pub discounts : Table ProductDiscount
  pub offers : Table ProductSpecialOffer

-- `shouldDiscountBeActive` and `shouldSpecialOfferBeActive`, which are the same.
abbrev pub should_be_active : Option ℕ → Option ℕ → ℕ → Bool
should_be_active none _ _ = false
should_be_active (some s) none _ = false
should_be_active (some s) (some e) now = not (ltb now s) && not (ltb e now)

abbrev pub same_status : Bool → Bool → Bool
same_status true b = b
same_status false b = not b

-- The counts that the jobs return.
pub record Tally : Type 0 where
  pub processed : ℕ
  pub activated : ℕ
  pub deactivated : ℕ
  pub errors : ℕ

abbrev pub no_tally : Tally
no_tally = record { processed = 0; activated = 0; deactivated = 0; errors = 0 }

abbrev pub one_processed : Tally → Tally
one_processed n = record n { processed = suc n.processed }

abbrev pub one_changed : Bool → Tally → Tally
one_changed true n = record n { activated = suc n.activated; processed = suc n.processed }
one_changed false n = record n { deactivated = suc n.deactivated; processed = suc n.processed }

abbrev pub one_error : Tally → Tally
one_error n = record n { errors = suc n.errors }

-- The two loops over the statuses are the same but for the row: `status` reads it, `set_status`
-- writes it, and `should` says what it should be.
module _ {R : Type 0} (status : R → Bool) (set_status : Bool → R → R) (should : R → Bool) where
  -- One round, for a row of the answer `before`; an error is counted and skipped.
  unfoldable pub update_status : Table R → ℕ → Table R × Tally → Table R × Tally
  update_status before k (t, n) = elim (before k) [
    | none ↦ (t, n)
    | some r ↦
        if same_status (status r) (should r)
        then (t, one_processed n)
        else elim (update k (set_status (should r)) t) [
          | err _ ↦ (t, one_error n)
          | ok t' ↦ (t', one_changed (should r) n)
        ]
  ]

  unfoldable pub update_statuses : Table R → List ℕ → Table R × Tally → Table R × Tally
  update_statuses before [] s = s
  update_statuses before (k ∷ ks) s = update_statuses before ks (update_status before k s)

abbrev pub set_discount_status : Bool → ProductDiscount → ProductDiscount
set_discount_status b d = record d { status = b }

abbrev pub discount_should : ℕ → ProductDiscount → Bool
discount_should now d = should_be_active d.discount_start_date d.discount_end_date now

abbrev pub set_offer_status : Bool → ProductSpecialOffer → ProductSpecialOffer
set_offer_status b o = record o { status = b }

abbrev pub offer_should : ℕ → ProductSpecialOffer → Bool
offer_should now o = should_be_active o.start_date o.end_date now

unfoldable pub update_all_product_discount_statuses : List ℕ → ℕ → Catalogue → Catalogue × Tally
update_all_product_discount_statuses ids now c =
    let (t, n) =
      update_statuses (λ (d : ProductDiscount). d.status) set_discount_status (discount_should now)
        c.discounts ids (c.discounts, no_tally) in
    (record c { discounts = t }, n)

unfoldable pub update_all_product_special_offer_statuses :
    List ℕ → ℕ → Catalogue → Catalogue × Tally
update_all_product_special_offer_statuses ids now c =
    let (t, n) =
      update_statuses (λ (o : ProductSpecialOffer). o.status) set_offer_status (offer_should now)
        c.offers ids (c.offers, no_tally) in
    (record c { offers = t }, n)

-- `Math.max(0, z)`
abbrev pub at_least_zero : ℤ → ℤ
at_least_zero z = pos (pos_part z)

-- The promotion, if it is active.
abbrev pub active_discount : Option ProductDiscount → Option ProductDiscount
active_discount none = none
active_discount (some d) = if d.status then some d else none

abbrev pub active_offer : Option ProductSpecialOffer → Option ProductSpecialOffer
active_offer none = none
active_offer (some o) = if o.status then some o else none

-- `!!endDate && endDate < now`
abbrev pub is_past : Option ℕ → ℕ → Bool
is_past none _ = false
is_past (some e) now = ltb e now

abbrev pub discount_expired : ℕ → Option ProductDiscount → Bool
discount_expired now none = false
discount_expired now (some d) = is_past d.discount_end_date now

abbrev pub offer_expired : ℕ → Option ProductSpecialOffer → Bool
offer_expired now none = false
offer_expired now (some o) = is_past o.end_date now

abbrev pub same_ℤ : ℤ → ℤ → Bool
same_ℤ a b = pos_part a == pos_part b && neg_part a == neg_part b

-- `product.salePrice !== price`
abbrev pub differs : Option ℤ → ℤ → Bool
differs none _ = true
differs (some a) b = not (same_ℤ a b)

abbrev pub with_sale_price : ℤ → Prices → Prices
with_sale_price z p = record p { sale_price = some z }

-- `delete({ where: k })`
abbrev pub delete {ℓ} : {V : Type ℓ} → ℕ → Table V → Result (Table V)
delete k t = or_throw (t k) p2025 >>= λ _. ok (λ j. if j == k then none else t j)

abbrev pub set_price : ℕ → Prices → ℤ → Table Prices → Result (Table Prices)
set_price k p z t = if differs p.sale_price z then update k (with_sale_price z) t else ok t

module _ (rounded : ℤ → ℕ → ℤ) where
  -- The price with the active promotions.
  unfoldable pub sale_price_of : ℕ → Option ProductDiscount → Option ProductSpecialOffer → ℤ
  sale_price_of consumer_price (some d) (some o) =
      at_least_zero (rounded (get_or o.special_price_applied (pos consumer_price)) d.discount_rate)
  sale_price_of consumer_price (some d) none = rounded (pos consumer_price) d.discount_rate
  sale_price_of consumer_price none (some o) =
      at_least_zero (get_or o.special_price_applied (pos consumer_price))
  sale_price_of consumer_price none none = pos consumer_price

  -- The same where a promotion has expired: without it, and never below zero.
  unfoldable pub restored_sale_price :
      ℕ → ℕ → Option ProductDiscount → Option ProductSpecialOffer → ℤ
  unfolding sale_price_of
  restored_sale_price now consumer_price d o =
      let live_d = if discount_expired now d then none else active_discount d in
      let live_o = if offer_expired now o then none else active_offer o in
      at_least_zero (sale_price_of consumer_price live_d live_o)

  -- The transaction of a product with an expired promotion.
  unfoldable pub restore_price : ℕ → ℕ → Prices → ℕ → Catalogue → Catalogue → Result Catalogue
  restore_price now k p consumer_price before c =
      set_price k p (restored_sale_price now consumer_price (before.discounts k) (before.offers k))
        c.products
      >>= λ products.
          if discount_expired now (before.discounts k)
          then (delete k c.discounts >>= λ t. ok (record c { products = products; discounts = t }))
          else ok (record c { products = products })

  unfoldable pub recalculate_price : ℕ → Prices → ℕ → Catalogue → Catalogue → Result Catalogue
  recalculate_price k p consumer_price before c =
      set_price k p
        (sale_price_of consumer_price (active_discount (before.discounts k))
          (active_offer (before.offers k)))
        c.products
      >>= λ products. ok (record c { products = products })
