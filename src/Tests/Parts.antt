-- ===== src/Tests/Parts.antt =====
-- The theorems on stock, points, rewards, tiers, coupons, carts and order groups, on small values.
use mathlib.Core.Option
use lif_low_backend.Prelude.{
  ℕ, pos, ◌+ℤ◌, ◌-ℤ◌, ◌+◌, ◌*◌, ◌≤◌, ◌<◌, ◌≡◌, ◌≢◌, refl, Option, none, some, List, [], ◌∷◌, arith,
  inl, inr,
}
use lif_low_backend.Schema.{
  User, Product, Order, OrderGroup, Point, used_points, CouponHistory, issued,
  order_payment_completed, OrderSituation, Db, Table, put,
}
use lif_low_backend.Stock.{take_stock, restore_stock}
use lif_low_backend.Points.{restore_points, collect, give_back_all, give_back_to, give_back}
use lif_low_backend.Points.Laws.{refund, restore_points_lem}
use lif_low_backend.Reward.{points_increase, reward_rate}
use lif_low_backend.Reward.Laws.{points_increase_bounds}
use lif_low_backend.Membership.{
  appropriate_tier, by_min_price_desc, insert_tier, first_reached, last_tier,
}
use lif_low_backend.Membership.Laws.{IsBest, appropriate_tier_lem}
use lif_low_backend.Coupons.{Use}
use lif_low_backend.Carts.Totals.{IsValid}
use lif_low_backend.Orders.{
  UpdateOrderGroup, try_update, update_order_group, check_orderer, updated, next_situation,
  situation_notice,
}
use lif_low_backend.Orders.Shipping.{IsUpdated, update_order_group-IsUpdated}
use lif_low_backend.Tests.{empty, value_or, user, tier, tiers, product, start}

abbrev line : ℕ → ℕ → Order
line id quantity = record {
  id = id;
  order_group_number = some 42;
  product_id = some 1;
  quantity = some quantity;
  total_order_amount = some 5000;
  total_payment_amount = some 5000;
  discount_amount = 0;
  coupon_used = [];
}

abbrev lines : List Order
lines = line 1 2 ∷ line 2 3 ∷ []

abbrev shelf : Table Product
shelf = put 1 product empty

abbrev refilled : Table Product
refilled = value_or shelf (restore_stock lines (take_stock lines shelf))

on_shelf : (k : ℕ) → some 1 ≡ some k → shelf k ≢ none
on_shelf k e q = ground arith

abbrev point : Option ℕ → Option ℕ → Point
point increase deduction = record {
  user_id = some 1;
  order_group_number = some 42;
  points_type = used_points;
  membership_level = none;
  available_points_increase = increase;
  available_points_deduction = deduction;
  available_points_balance = none;
}

abbrev two_points : List Point
two_points = point (some 30) none ∷ point none (some 200) ∷ []

abbrev people : Table User
people = put 1 user empty

abbrev repaid : Table User
repaid = value_or people (restore_points two_points people)

restore_points_lem_example :
    repaid 1 ≡ Option.map (refund (record { increase = 30; deduction = 200 })) (people 1)
unfolding restore_points collect give_back_all give_back_to give_back ◌+ℤ◌ ◌-ℤ◌
restore_points_lem_example = restore_points_lem 1 two_points people refl

points_increase_bounds_example :
    (points_increase 12500 (some "LV2. 새싹") * 1000 ≤ 12500 * reward_rate (some "LV2. 새싹"))
    × (12500 * reward_rate (some "LV2. 새싹") < points_increase 12500 (some "LV2. 새싹") * 1000 + 1000)
    × (points_increase 12500 (some "LV2. 새싹") * 100 ≤ 12500 * 3)
    × (points_increase 12500 none ≡ 0)
points_increase_bounds_example = points_increase_bounds 12500 (some "LV2. 새싹")

abbrev group : OrderSituation → OrderGroup
group s = record {
  original_amount = 10000;
  discount_amount = 500;
  orderer_id = some 1;
  situation = s;
  final_amount = 12500;
  points_used = 200;
  cart_item_ids = [];
  delivery_fee = 3000;
  payment_id = none;
  courier_company = none;
  invoice_number = none;
}

abbrev groups : OrderSituation → Table OrderGroup
groups s = put 42 (group s) empty

appropriate_tier_lem_example : IsBest (pos 20000) (tier 2 10000) (tier 3 50000)
unfolding appropriate_tier by_min_price_desc insert_tier first_reached last_tier
appropriate_tier_lem_example =
    appropriate_tier_lem (pos 20000) (tier 2 10000) (tier 3 50000) tiers refl (inr (inl refl)) refl

abbrev pub history : ℕ → ℕ → CouponHistory
history id quantity = record {
  id = id;
  coupon_id = some 5;
  user_id = 1;
  quantity = quantity;
  order_id = none;
  status = issued;
  start_date = none;
  end_date = none;
  payment_id = none;
  issued_at = id;
  used_at = none;
  expired_at = none;
  cancelled_at = none;
  discount_applied_amount = none;
  purchase_amount_at_use = none;
}

abbrev pub histories : List CouponHistory
histories = history 2 3 ∷ history 1 4 ∷ []

abbrev pub one_use : Use
one_use = record { user_id = 1; order_id = 9; now = 5; discount = 300; purchase = 10000 }

cart-IsValid : IsValid start
cart-IsValid = record { distinct = (tt, tt); totals = λ c total e. ground arith }

-- A request that names a courier and an invoice number.
abbrev send : UpdateOrderGroup
send = record {
  original_amount = none;
  discount_amount = none;
  final_amount = none;
  points_used = none;
  cart_item_ids = none;
  delivery_fee = none;
  orderer_id = none;
  courier_company = some (67 ∷ 74 ∷ []);
  invoice_number = some (49 ∷ []);
  situation = none;
}

abbrev office : OrderSituation → Db
office s = record start { order_groups = groups s }

abbrev sent : Option (ℕ × OrderSituation) × Db
sent = value_or (none, start) (update_order_group send 42 (office order_payment_completed))

update_order_group-IsUpdated_example : IsUpdated send 42 (office order_payment_completed) sent.1
unfolding update_order_group try_update check_orderer updated next_situation situation_notice
update_order_group-IsUpdated_example =
    update_order_group-IsUpdated send 42 (office order_payment_completed) refl
