-- ===== src/Discounts/Service.antt =====
-- The administration of discounts: src/modules/product-discount/product-discount.service.ts and
-- its repositories/product-discount.repository.ts. A discount is named by its product here, which
-- is unique as its identifier is.
use lif_low_backend.Prelude.{
  ℕ, ◌+◌, ℤ, Bool, true, false, not, ◌&&◌, Option, none, some, List, [], ◌∷◌, leb, if◌then◌else◌,
  get_or, is_empty, contains, one_if,
}
use lif_low_backend.Schema.{
  Result, ok, ◌>>=◌, ◌>>◌, or_throw, throw_if, not_found, bad_request, conflict, update, put,
  discount_not_found, discount_exists, start_not_before_end, product_id_fixed, empty_ids,
}
use lif_low_backend.Discounts.{ProductDiscount, Catalogue, delete}
use lif_low_backend.Discounts.SalePrices.{recalculate_product_sale_prices_by_id}

pub record CreateProductDiscount : Type 0 where
  pub product_id : ℕ
  pub discount_rate : ℕ
  pub status : Option Bool
  pub discount_start_date : Option ℕ
  pub discount_end_date : Option ℕ

-- A date may be given as null.
pub record UpdateProductDiscount : Type 0 where
  pub product_id : Option ℕ
  pub discount_rate : Option ℕ
  pub status : Option Bool
  pub discount_start_date : Option (Option ℕ)
  pub discount_end_date : Option (Option ℕ)

abbrev pub is_there {ℓ} : {A : Type ℓ} → Option A → Bool
is_there none = false
is_there (some _) = true

-- `start && end && start >= end`
abbrev pub is_disordered : Option ℕ → Option ℕ → Bool
is_disordered none _ = false
is_disordered (some s) none = false
is_disordered (some s) (some e) = leb e s

-- `create` of the repository.
abbrev pub created_discount : CreateProductDiscount → ProductDiscount
created_discount request = record {
  status = get_or request.status false;
  discount_rate = request.discount_rate;
  discount_start_date = request.discount_start_date;
  discount_end_date = request.discount_end_date;
}

-- The price is recalculated before the discount is saved.
unfoldable pub create_discount : (ℤ → ℕ → ℤ) → CreateProductDiscount → Catalogue → Result Catalogue
create_discount rounded request c =
    throw_if (is_there (c.discounts request.product_id)) (conflict discount_exists)
    >> throw_if (is_disordered request.discount_start_date request.discount_end_date)
        (bad_request start_not_before_end)
    >> (recalculate_product_sale_prices_by_id rounded request.product_id c >>= λ r. ok (record r.0 {
      discounts = put request.product_id (created_discount request) r.0.discounts;
    }))

-- The date to check: that of the request, or else the one that is there; none unless the request
-- gives both.
abbrev pub checked_date : Option (Option ℕ) → Option ℕ → Option ℕ
checked_date none old = old
checked_date (some none) old = old
checked_date (some (some d)) old = some d

abbrev pub check_dates : UpdateProductDiscount → ProductDiscount → Result (Unit {0})
check_dates request d =
    throw_if
      (is_there request.discount_start_date
        && is_there request.discount_end_date
        && is_disordered (checked_date request.discount_start_date d.discount_start_date)
            (checked_date request.discount_end_date d.discount_end_date))
      (bad_request start_not_before_end)

-- `update` and `updateByProductId` of the repository.
abbrev pub with_discount_update : UpdateProductDiscount → ProductDiscount → ProductDiscount
with_discount_update request d = record {
  status = get_or request.status d.status;
  discount_rate = get_or request.discount_rate d.discount_rate;
  discount_start_date = get_or request.discount_start_date d.discount_start_date;
  discount_end_date = get_or request.discount_end_date d.discount_end_date;
}

abbrev pub save_update : ℕ → UpdateProductDiscount → Catalogue → Result Catalogue
save_update k request c =
    update k (with_discount_update request) c.discounts >>= λ t. ok (record c { discounts = t })

unfoldable pub update_discount : ℕ → UpdateProductDiscount → Catalogue → Result Catalogue
update_discount k request c = or_throw (c.discounts k) (not_found discount_not_found) >>= λ d.
    check_dates request d
    >> throw_if (is_there request.product_id) (bad_request product_id_fixed)
    >> save_update k request c

unfoldable pub update_by_product_id : ℕ → UpdateProductDiscount → Catalogue → Result Catalogue
update_by_product_id k request c = or_throw (c.discounts k) (not_found discount_not_found) >>= λ d.
    check_dates request d >> save_update k request c

-- `remove` and `removeByProductId`
unfoldable pub remove_discount : ℕ → Catalogue → Result Catalogue
remove_discount k c = or_throw (c.discounts k) (not_found discount_not_found) >>= λ _.
    delete k c.discounts >>= λ t. ok (record c { discounts = t })

-- How many of the discounts are there, each named once.
unfoldable pub count_there : List ℕ → Catalogue → ℕ
count_there [] c = 0
count_there (k ∷ ks) c = one_if (is_there (c.discounts k) && not (contains k ks)) + count_there ks c

unfoldable pub bulk_delete : List ℕ → Catalogue → Result (Catalogue × ℕ)
bulk_delete ids c =
    throw_if (is_empty ids) (bad_request empty_ids)
    >> ok (
      record c { discounts = λ j. if contains j ids then none else c.discounts j },
      count_there ids c,
    )
