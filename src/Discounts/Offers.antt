-- ===== src/Discounts/Offers.antt =====
-- Special offers of a product: `updateProductSpecialOffer` and `deleteProductSpecialOffer` in
-- src/modules/product/product.service.ts, with the calls of
-- src/modules/product/repositories/product.repository.ts that they make. The product that they
-- return, which is read again, is left out.
use lif_low_backend.Prelude.{
  ℕ, ℤ, pos, ◌+ℤ◌, ltb_ℤ, Bool, Option, none, some, if◌then◌else◌, get_or,
}
use lif_low_backend.Schema.{
  Result, ok, ◌>>=◌, or_throw, not_found, product_not_found, no_special_offer, update, put,
}
use lif_low_backend.Discounts.{
  Prices, ProductSpecialOffer, Catalogue, should_be_active, is_past, delete,
}

-- `CreateProductSpecialOfferDto`. A price or a date may be given as null.
pub record OfferRequest : Type 0 where
  pub discount_amount : Option ℕ
  pub special_price_applied : Option (Option ℤ)
  pub start_date : Option (Option ℕ)
  pub end_date : Option (Option ℕ)

-- A field that is neither missing nor null.
abbrev pub given {ℓ} : {A : Type ℓ} → Option (Option A) → Option A
given none = none
given (some o) = o

abbrev pub price_of_offer : Option ProductSpecialOffer → Option ℤ
price_of_offer none = none
price_of_offer (some o) = o.special_price_applied

abbrev pub amount_of_offer : Option ProductSpecialOffer → Option ℕ
amount_of_offer none = none
amount_of_offer (some o) = some o.discount_amount

abbrev pub or_else {ℓ} : {A : Type ℓ} → Option A → Option A → Option A
or_else none o = o
or_else (some a) _ = some a

-- `originalPrice`: the special price and the amount, of the request or else of the offer.
abbrev pub original_price : OfferRequest → Option ProductSpecialOffer → ℤ
original_price request o =
    get_or (or_else (given request.special_price_applied) (price_of_offer o)) (pos 0)
    +ℤ pos (get_or (or_else request.discount_amount (amount_of_offer o)) 0)

abbrev pub set_sale_price : Option ℤ → Prices → Prices
set_sale_price z p = record p { sale_price = z }

-- `originalPrice > 0 ? originalPrice : product.salePrice`
abbrev pub if_positive : ℤ → Option ℤ → Option ℤ
if_positive z old = if ltb_ℤ (pos 0) z then some z else old

-- `createProductSpecialOffer` of the repository: a price that is not given is saved as 0.
abbrev pub created_offer : OfferRequest → Bool → ProductSpecialOffer
created_offer request status = record {
  status = status;
  discount_amount = get_or request.discount_amount 0;
  special_price_applied = some (get_or (given request.special_price_applied) (pos 0));
  start_date = given request.start_date;
  end_date = given request.end_date;
}

-- `updateProductSpecialOffer` of the repository: a field that is missing stays.
abbrev pub updated_offer : OfferRequest → Bool → ProductSpecialOffer → ProductSpecialOffer
updated_offer request status o = record {
  status = status;
  discount_amount = get_or request.discount_amount o.discount_amount;
  special_price_applied = elim request.special_price_applied [
    | none ↦ o.special_price_applied
    | some z ↦ some (get_or z (pos 0))
  ];
  start_date = get_or request.start_date o.start_date;
  end_date = get_or request.end_date o.end_date;
}

-- `productSpecialOffer.delete`, if the product has an offer.
abbrev pub without_offer : ℕ → Catalogue → Result Catalogue
without_offer k c = elim (c.offers k) [
  | none ↦ ok c
  | some _ ↦ delete k c.offers >>= λ t. ok (record c { offers = t })
]

abbrev pub write_sale_price : ℕ → Option ℤ → Catalogue → Result Catalogue
write_sale_price k z c =
    update k (set_sale_price z) c.products >>= λ t. ok (record c { products = t })

-- The price at the end of the call, for a product that had no offer: that of the request, if the
-- offer is active.
abbrev pub price_if_active : Bool → OfferRequest → ℕ → Catalogue → Result Catalogue
price_if_active active request k c = elim (given request.special_price_applied) [
  | none ↦ ok c
  | some z ↦ if active then write_sale_price k (some z) c else ok c
]

-- The same for a product that had an offer.
abbrev pub price_or_restored :
    Bool → OfferRequest → ProductSpecialOffer → ℕ → Catalogue → Result Catalogue
price_or_restored active request o k c = elim (given request.special_price_applied) [
  | none ↦ write_sale_price k (some (original_price request (some o))) c
  | some z ↦ write_sale_price k (some (if active then z else original_price request (some o))) c
]

-- The part after the check for an offer that has ended.
abbrev pub save_offer : Bool → OfferRequest → ℕ → Catalogue → Result Catalogue
save_offer active request k c = elim (c.offers k) [
  | none ↦
      price_if_active active request k
        (record c { offers = put k (created_offer request active) c.offers })
  | some o ↦ update k (updated_offer request active) c.offers >>= λ t.
      price_or_restored active request o k (record c { offers = t })
]

unfoldable pub update_product_special_offer : ℕ → OfferRequest → ℕ → Catalogue → Result Catalogue
update_product_special_offer k request today c =
    or_throw (c.products k) (not_found product_not_found) >>= λ p.
    if is_past (given request.end_date) today
    then (write_sale_price k (if_positive (original_price request (c.offers k)) p.sale_price) c
        >>= without_offer k)
    else save_offer (should_be_active (given request.start_date) (given request.end_date) today)
        request k c

unfoldable pub delete_product_special_offer : ℕ → Catalogue → Result Catalogue
delete_product_special_offer k c = or_throw (c.products k) (not_found product_not_found) >>= λ p.
    or_throw (c.offers k) (not_found no_special_offer) >>= λ o.
    write_sale_price k
      (if_positive (get_or o.special_price_applied (pos 0) +ℤ pos o.discount_amount) p.sale_price) c
    >>= λ c'. delete k c'.offers >>= λ t. ok (record c' { offers = t })
