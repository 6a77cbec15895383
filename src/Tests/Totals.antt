-- ===== src/Tests/Totals.antt =====
-- The transactions of the small database go through.
use lif_low_backend.Prelude.{some-injective, get_or}
use lif_low_backend.Prelude.{◌+ℤ◌, ◌-ℤ◌, ◌≡◌, refl, none, some, []}
use lif_low_backend.Schema.{Db, User, Product, Table, order_shipped}
use lif_low_backend.Schema.{ok, Payment}
use lif_low_backend.Coupons.{
  discount_of, use_coupons, use_coupons_of_order, use_coupon, entry_quantity, use_history,
  oldest_issued, set_history,
}
use lif_low_backend.Points.{spend_points}
use lif_low_backend.Stock.{take_stock, product_quantities, lower_products}
use lif_low_backend.Reward.{issue_after_payment, points_increase, rate_of_level}
use lif_low_backend.Payment.Toss.{payment_status, payment_type}
use lif_low_backend.Payment.Pricing.{check_points, check_stock, final_amount_of}
use lif_low_backend.Payment.Confirm.{confirm_tx, issue_reward}
use lif_low_backend.Payment.Initiate.{
  initiate_cart, price, unique_number, check_address, create_tx, create_orders, line_discount,
  line_coupons,
}
use lif_low_backend.Payment.Refund.{cancel, return_goods}
use lif_low_backend.Tests.{
  order, initiated, confirmed, rewarded, give_all, give_most, clock, delivered,
}
use lif_low_backend.Prelude.{arith}
use lif_low_backend.Schema.{is_completed, is_shipped, OrderGroup}
use lif_low_backend.Payment.Refund.Guards.{IsRefundable}
use lif_low_backend.Payment.Initiate.{group_of}
use lif_low_backend.Prelude.{ℕ, ◌≢◌, subst}
use lif_low_backend.Payment.Refund.Total.{HasRows, cancel_total, return_goods_total}

abbrev paid_group : OrderGroup
paid_group = get_or (confirmed.2.order_groups 42) (group_of order initiated.1 [])

abbrev delivered_group : OrderGroup
delivered_group = record paid_group { situation = order_shipped }

there : (t : Table User) {u : User} → t 1 ≡ some u → (k : ℕ) → some 1 ≡ some k → t k ≢ none
there t h k e = subst (λ j. t j ≢ none) (some-injective e) (λ q. cc)

on_shelf : (t : Table Product) {p : Product} → t 1 ≡ some p → (k : ℕ) → some 1 ≡ some k → t k ≢ none
on_shelf t h k e = subst (λ j. t j ≢ none) (some-injective e) (λ q. cc)

rewarded-HasRows : HasRows confirmed.0 paid_group rewarded
unfolding initiate_cart check_points check_stock price discount_of final_amount_of unique_number
    check_address create_tx create_orders line_discount line_coupons confirm_tx use_coupons
    use_coupons_of_order use_coupon entry_quantity use_history oldest_issued set_history
    spend_points take_stock product_quantities lower_products payment_status payment_type ◌+ℤ◌ ◌-ℤ◌
    issue_reward issue_after_payment points_increase rate_of_level
rewarded-HasRows = record {
  products = (on_shelf rewarded.products refl, tt);
  users = (there rewarded.users refl, (there rewarded.users refl, tt));
  orderer = there rewarded.users refl;
}

rewarded-IsRefundable : IsRefundable is_completed confirmed.0.id rewarded confirmed.0 paid_group
unfolding initiate_cart check_points check_stock price discount_of final_amount_of unique_number
    check_address create_tx create_orders line_discount line_coupons confirm_tx use_coupons
    use_coupons_of_order use_coupon entry_quantity use_history oldest_issued set_history
    spend_points take_stock product_quantities lower_products payment_status payment_type ◌+ℤ◌ ◌-ℤ◌
    issue_reward issue_after_payment points_increase rate_of_level
rewarded-IsRefundable = record {
  found = refl;
  group_found = refl;
  situation_allowed = refl;
  paid = refl;
  has_balance = omega arith;
}

cancel_total_example :
    (r : Payment × Db) × (cancel give_all clock confirmed.0.id none rewarded ≡ ok r)
cancel_total_example =
    cancel_total give_all clock confirmed.0.id none rewarded rewarded-IsRefundable refl
      rewarded-HasRows

delivered-HasRows : HasRows confirmed.0 delivered_group delivered
unfolding initiate_cart check_points check_stock price discount_of final_amount_of unique_number
    check_address create_tx create_orders line_discount line_coupons confirm_tx use_coupons
    use_coupons_of_order use_coupon entry_quantity use_history oldest_issued set_history
    spend_points take_stock product_quantities lower_products payment_status payment_type ◌+ℤ◌ ◌-ℤ◌
    issue_reward issue_after_payment points_increase rate_of_level
delivered-HasRows = record {
  products = (on_shelf delivered.products refl, tt);
  users = (there delivered.users refl, (there delivered.users refl, tt));
  orderer = there delivered.users refl;
}

delivered-IsRefundable :
    IsRefundable is_shipped confirmed.0.id delivered confirmed.0 delivered_group
unfolding initiate_cart check_points check_stock price discount_of final_amount_of unique_number
    check_address create_tx create_orders line_discount line_coupons confirm_tx use_coupons
    use_coupons_of_order use_coupon entry_quantity use_history oldest_issued set_history
    spend_points take_stock product_quantities lower_products payment_status payment_type ◌+ℤ◌ ◌-ℤ◌
    issue_reward issue_after_payment points_increase rate_of_level
delivered-IsRefundable = record {
  found = refl;
  group_found = refl;
  situation_allowed = refl;
  paid = refl;
  has_balance = omega arith;
}

return_goods_total_example :
    (r : Payment × Db) × (return_goods give_most clock confirmed.0.id delivered ≡ ok r)
unfolding initiate_cart check_points check_stock price discount_of final_amount_of unique_number
    check_address create_tx create_orders line_discount line_coupons confirm_tx use_coupons
    use_coupons_of_order use_coupon entry_quantity use_history oldest_issued set_history
    spend_points take_stock product_quantities lower_products payment_status payment_type ◌+ℤ◌ ◌-ℤ◌
    issue_reward issue_after_payment points_increase rate_of_level
return_goods_total_example =
    return_goods_total give_most clock confirmed.0.id delivered delivered-IsRefundable (omega arith)
      refl delivered-HasRows
