-- ===== src/Tests/Promotions.antt =====
-- The theorems on discounts, special offers and sale prices, on one product with both.
use lif_low_backend.Prelude.{
  ℕ, ◌*◌, ◌/◌, ◌-◌, ℤ, pos, pos_part, ◌+ℤ◌, true, false, some, [], ◌∷◌, ◌≡◌, refl, arith,
}
use lif_low_backend.Schema.{put, ok, ◌>>=◌}
use lif_low_backend.Discounts.{Prices, ProductDiscount, ProductSpecialOffer, Catalogue}
use lif_low_backend.Discounts.SalePrices.{handle_scheduled_product_discount_status_update}
use lif_low_backend.Discounts.Promised.{promised_price}
use lif_low_backend.Discounts.Nightly.{IsPromised, night-IsPromised}
use lif_low_backend.Discounts.Offers.{
  OfferRequest, update_product_special_offer, delete_product_special_offer,
}
use lif_low_backend.Discounts.Laws.{delete-update_product_special_offer}
use lif_low_backend.Tests.{empty}

-- The rate in whole numbers.
abbrev exact : ℤ → ℕ → ℤ
exact z r = pos (pos_part z * (100 - r) / 100)

abbrev prices : Prices
prices = record { consumer_price = some 10000; sale_price = some (pos 10000) }

abbrev tenth_off : ProductDiscount
tenth_off = record {
  status = false;
  discount_rate = 10;
  discount_start_date = some 5;
  discount_end_date = some 20;
}

abbrev on_offer : ProductSpecialOffer
on_offer = record {
  status = true;
  discount_amount = 2000;
  special_price_applied = some (pos 8000);
  start_date = some 1;
  end_date = some 30;
}

abbrev shop : Catalogue
shop = record {
  products = put 1 prices empty;
  discounts = put 1 tenth_off empty;
  offers = put 1 on_offer empty;
}

abbrev bare : Catalogue
bare = record { products = put 1 prices empty; discounts = empty; offers = empty }

night-IsPromised_example :
    IsPromised exact 7 7 7 1 prices 10000 shop
      (handle_scheduled_product_discount_status_update exact (1 ∷ 2 ∷ []) 7 7 7 shop)
night-IsPromised_example =
    night-IsPromised exact (1 ∷ 2 ∷ []) 7 7 7 1 prices shop (λ p r h. omega arith)
      (refl, (refl, tt)) refl refl refl refl (omega arith)

-- The special price of 8000 less a tenth.
promised_price_example : promised_price exact 10000 (some tenth_off) (some on_offer) ≡ pos 7200
promised_price_example = refl

abbrev request : OfferRequest
request = record {
  discount_amount = some 2000;
  special_price_applied = some (some (pos 8000));
  start_date = some (some 1);
  end_date = some (some 30);
}

delete-update_product_special_offer_example :
    (c' : Catalogue) × ((update_product_special_offer 1 request 7 bare >>= λ saved.
    delete_product_special_offer 1 saved)
      ≡ ok c')
    × ((j : ℕ) → c'.products j ≡ bare.products j)
    × ((j : ℕ) → c'.offers j ≡ bare.offers j)
    × (c'.discounts ≡ bare.discounts)
unfolding ◌+ℤ◌
delete-update_product_special_offer_example =
    delete-update_product_special_offer 1 7 request bare prices refl refl refl refl refl refl refl
      refl refl
