-- ===== src/Discounts/Laws.antt =====
-- What the administration of discounts and special offers does to the sale prices
-- (src/modules/product-discount/product-discount.service.ts and
-- src/modules/product/product.service.ts).
use lif_low_backend.Prelude.{
  ℕ, ◌≡◌, refl, ap, sym, ◌∙◌, ℤ, pos, ◌+ℤ◌, ltb_ℤ, true, false, Option, none, some, ◌==◌,
  if◌then◌else◌, inl, inr, Bool-cases, ==_iff, get_or,
}
use lif_low_backend.Schema.{
  Table, put, ok, ◌>>=◌, ◌>>◌, >>=-eq-ok, or_throw, or_throw-eq-ok, throw_if, throw_if-eq-ok,
  ok-injective, conflict, bad_request, internal, discount_exists, start_not_before_end,
  product_not_found, consumer_price_not_set,
}
use lif_low_backend.Discounts.{
  Prices, ProductSpecialOffer, Catalogue, with_sale_price, should_be_active, is_past,
  active_discount, active_offer, sale_price_of,
}
use lif_low_backend.Discounts.SalePrices.{recalculate_product_sale_prices_by_id}
use lif_low_backend.Discounts.Promised.{promised_price}
use lif_low_backend.Discounts.Service.{
  CreateProductDiscount, created_discount, create_discount, is_there, is_disordered,
}
use lif_low_backend.Discounts.Offers.{
  OfferRequest, given, created_offer, set_sale_price, update_product_special_offer,
  delete_product_special_offer, save_offer, price_if_active,
}

abbrev pub SameTable {ℓ} : {V : Type ℓ} → Table V → Table V → Type ℓ
SameTable t t' = (j : ℕ) → t j ≡ t' j

put_back :
    {V : Type 0} (k : ℕ) (t : Table V) (v w : V)
    → t k ≡ some v
    → (j : ℕ) → put k v (put k w t) j ≡ t j
put_back k t v w e j = elim (Bool-cases (j == k)) [
  | inl same ↦ rw same (rw ((==_iff j k).0 same) (sym e))
  | inr other ↦ rw other refl
]

delete_put :
    {V : Type 0} (k : ℕ) (t : Table V) (w : V)
    → t k ≡ none
    → (j : ℕ) → (if j == k then none else put k w t j) ≡ t j
delete_put k t w e j = elim (Bool-cases (j == k)) [
  | inl same ↦ rw same (rw ((==_iff j k).0 same) (sym e))
  | inr other ↦ rw other refl
]

price_if_active_lem :
    (k : ℕ) (request : OfferRequest) (c : Catalogue) {p : Prices} {z : ℤ}
    → c.products k ≡ some p
    → given request.special_price_applied ≡ some z
    → price_if_active true request k c
      ≡ ok (record c { products = put k (set_sale_price (some z) p) c.products })
price_if_active_lem k request c there given_z = rw (given_z, price_if_active) (rw there refl)

save_new_offer :
    (k today : ℕ) (request : OfferRequest) (c : Catalogue) {p : Prices} {z : ℤ}
    → c.products k ≡ some p
    → c.offers k ≡ none
    → given request.special_price_applied ≡ some z
    → is_past (given request.end_date) today ≡ false
    → should_be_active (given request.start_date) (given request.end_date) today ≡ true
    → update_product_special_offer k request today c
      ≡ ok (record c {
        products = put k (set_sale_price (some z) p) c.products;
        offers = put k (created_offer request true) c.offers;
      })
unfolding update_product_special_offer
save_new_offer k today request c there free given_z open_ active =
    rw (there, open_, active)
      (rw (free, save_offer)
        (price_if_active_lem k request
          (record c { offers = put k (created_offer request true) c.offers }) there given_z))

delete_offer :
    (k : ℕ) (c : Catalogue) {p : Prices} {o : ProductSpecialOffer} {s : ℤ}
    → c.products k ≡ some p
    → c.offers k ≡ some o
    → get_or o.special_price_applied (pos 0) +ℤ pos o.discount_amount ≡ s
    → ltb_ℤ (pos 0) s ≡ true
    → delete_product_special_offer k c
      ≡ ok (record c {
        products = put k (set_sale_price (some s) p) c.products;
        offers = λ j. if j == k then none else c.offers j;
      })
unfolding delete_product_special_offer
delete_offer k c there there' total positive = rw (there, there', total, positive) refl

same_price : (p : Prices) {s : ℤ} → p.sale_price ≡ some s → p ≡ set_sale_price (some s) p
same_price p e = ap (λ z. set_sale_price z p) e

-- A special offer that is saved for a product without one, while its period runs, and is then
-- deleted leaves the catalogue as it was, if the special price and the amount together are the
-- sale price from before, and that is positive.
pub delete-update_product_special_offer :
    (k today : ℕ) (request : OfferRequest) (c : Catalogue) (p : Prices) {z s : ℤ} {a : ℕ}
    → c.products k ≡ some p
    → c.offers k ≡ none
    → p.sale_price ≡ some s
    → given request.special_price_applied ≡ some z
    → request.discount_amount ≡ some a
    → z +ℤ pos a ≡ s
    → ltb_ℤ (pos 0) s ≡ true
    → is_past (given request.end_date) today ≡ false
    → should_be_active (given request.start_date) (given request.end_date) today ≡ true
    → (c' : Catalogue) × ((update_product_special_offer k request today c >>= λ saved.
          delete_product_special_offer k saved)
        ≡ ok c')
      × ((j : ℕ) → c'.products j ≡ c.products j)
      × ((j : ℕ) → c'.offers j ≡ c.offers j)
      × (c'.discounts ≡ c.discounts)
delete-update_product_special_offer k today request c p {z} {s} {a} there free price given_z given_a
      total positive open_ active =
    let c1 : Catalogue = record c {
      products = put k (set_sale_price (some z) p) c.products;
      offers = put k (created_offer request true) c.offers;
    } in
    let q1 : c1.products k ≡ some (set_sale_price (some z) p) = rw ((==_iff k k).1 refl) refl in
    let q2 : c1.offers k ≡ some (created_offer request true) = rw ((==_iff k k).1 refl) refl in
    let sum : get_or (created_offer request true).special_price_applied (pos 0)
          +ℤ pos (created_offer request true).discount_amount
        ≡ s =
      rw (given_z, given_a) total in
    (
      record c1 {
        products = put k (set_sale_price (some s) (set_sale_price (some z) p)) c1.products;
        offers = λ j. if j == k then none else c1.offers j;
      },
      rw (save_new_offer k today request c there free given_z open_ active)
          (delete_offer k c1 q1 q2 sum positive),
      put_back k c.products (set_sale_price (some s) p) (set_sale_price (some z) p)
          (there ∙ ap some (same_price p price)),
      delete_put k c.offers (created_offer request true) free,
      refl,
    )

not_there : {A : Type 0} (o : Option A) → is_there o ≡ false → o ≡ none
not_there none h = refl
not_there (some a) h = cc

without_discount :
    (rounded : ℤ → ℕ → ℤ) (cp : ℕ) (o : Option ProductSpecialOffer)
    → sale_price_of rounded cp none o ≡ promised_price rounded cp none o
unfolding sale_price_of
without_discount rounded cp none = refl
without_discount rounded cp (some o) = refl

-- What `recalculateProductSalePricesById` writes when it goes through.
recalculated_by_id :
    (rounded : ℤ → ℕ → ℤ) (k : ℕ) (c : Catalogue) {r : Catalogue × ℤ}
    → recalculate_product_sale_prices_by_id rounded k c ≡ ok r
    → (p : Prices) × (cp : ℕ) × (c.products k ≡ some p)
      × (p.consumer_price ≡ some cp)
      × (r.0 ≡ record c {
        products =
            put k
              (with_sale_price
                (sale_price_of rounded cp
                  (active_discount (c.discounts k))
                  (active_offer (c.offers k)))
                p)
              c.products;
      })
unfolding recalculate_product_sale_prices_by_id
recalculated_by_id rounded k c {r} h =
    let (p, e1, h1) = >>=-eq-ok (or_throw (c.products k) (internal product_not_found)) _ h in
    let (cp, e2, h2) =
      >>=-eq-ok (or_throw p.consumer_price (internal consumer_price_not_set)) _ h1 in
    let there = or_throw-eq-ok (c.products k) _ e1 in
    let z =
      sale_price_of rounded cp (active_discount (c.discounts k)) (active_offer (c.offers k)) in
    (
      p,
      cp,
      there,
      or_throw-eq-ok p.consumer_price _ e2,
      sym (ap (λ (x : Catalogue × ℤ). x.0) (ok-injective (rw there at h2))),
    )

-- A successful creation saves the discount as the request gives it, but sells the product at the
-- price without it: the special price if a special offer is active, and else the consumer price.
pub create_discount-price :
    (rounded : ℤ → ℕ → ℤ) (request : CreateProductDiscount) (c : Catalogue) {c' : Catalogue}
    → create_discount rounded request c ≡ ok c'
    → (p : Prices) × (cp : ℕ) × (c.products request.product_id ≡ some p)
      × (p.consumer_price ≡ some cp)
      × (c'.products request.product_id
          ≡ some (
              with_sale_price
                (promised_price rounded cp none (active_offer (c.offers request.product_id)))
                p))
      × (c'.discounts request.product_id ≡ some (created_discount request))
unfolding create_discount
create_discount-price rounded request c {c'} h =
    let k = request.product_id in
    let new = throw_if (is_there (c.discounts k)) (conflict discount_exists) in
    let dates =
      throw_if (is_disordered request.discount_start_date request.discount_end_date)
        (bad_request start_not_before_end) in
    let (_, checked, h2) = >>=-eq-ok (new >> dates) _ h in
    let (_, fresh, _) = >>=-eq-ok new _ checked in
    let (r, e, h3) = >>=-eq-ok (recalculate_product_sale_prices_by_id rounded k c) _ h2 in
    let (p, cp, there, q, made) = recalculated_by_id rounded k c e in
    let none_before : c.discounts k ≡ none = not_there (c.discounts k) (throw_if-eq-ok _ _ fresh) in
    let saved : record r.0 { discounts = put k (created_discount request) r.0.discounts } ≡ c' =
      ok-injective h3 in
    (
      p,
      cp,
      there,
      q,
      ap (λ (x : Catalogue). x.products k) (sym saved)
          ∙ ap (λ (x : Catalogue). x.products k) made
          ∙ rw ((==_iff k k).1 refl) (
              rw none_before (
                ap (λ z. some (with_sale_price z p))
                  (without_discount rounded cp (active_offer (c.offers k))))),
      ap (λ (x : Catalogue). x.discounts k) (sym saved) ∙ rw ((==_iff k k).1 refl) refl,
    )
