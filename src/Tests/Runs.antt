-- ===== src/Tests/Runs.antt =====
-- A payment of the small database from its initiation to its end.
use lif_low_backend.Prelude.{◌+ℤ◌, ◌-ℤ◌, ◌≡◌, refl, false, none, [], ◌∷◌}
use lif_low_backend.Schema.{ok}
use lif_low_backend.Coupons.{
  discount_of, use_coupons, use_coupons_of_order, use_coupon, entry_quantity, use_history,
  oldest_issued, set_history,
}
use lif_low_backend.Points.{
  spend_points, restore_points, collect, give_back_all, give_back_to, give_back,
}
use lif_low_backend.Stock.{
  take_stock, product_quantities, lower_products, restore_stock, restore_product,
}
use lif_low_backend.Reward.{issue_after_payment, points_increase, rate_of_level}
use lif_low_backend.Membership.{
  recalculate, appropriate_tier, by_min_price_desc, insert_tier, first_reached, last_tier,
}
use lif_low_backend.Payment.Toss.{payment_status, payment_type}
use lif_low_backend.Payment.Pricing.{check_points, check_stock, final_amount_of}
use lif_low_backend.Payment.Confirm.{confirm_tx, issue_reward}
use lif_low_backend.Payment.Initiate.{
  initiate_cart, price, unique_number, check_address, create_tx, create_orders, line_discount,
  line_coupons,
}
use lif_low_backend.Payment.Refund.{
  cancel, cancel_tx, return_goods, return_tx, refund_tx, find_refundable, lower_purchase,
  set_payment,
}
use lif_low_backend.Tests.{
  start, draw, order, initiated, request, paid, confirmed, rewarded, give_all, give_most, clock,
  cancelled, delivered, returned,
}

-- What the runs return.
pub initiated_run : initiate_cart draw order 4 (3 ∷ []) start ≡ ok initiated
unfolding initiate_cart check_points check_stock price discount_of final_amount_of unique_number
    check_address create_tx create_orders line_discount line_coupons
initiated_run = refl

pub confirmed_run : confirm_tx request 1 false paid 2 initiated.2 ≡ ok confirmed
unfolding initiate_cart check_points check_stock price discount_of final_amount_of unique_number
    check_address create_tx create_orders line_discount line_coupons confirm_tx use_coupons
    use_coupons_of_order use_coupon entry_quantity use_history oldest_issued set_history
    spend_points take_stock product_quantities lower_products payment_status payment_type ◌+ℤ◌ ◌-ℤ◌
confirmed_run = refl

pub cancelled_run : cancel give_all clock confirmed.0.id none rewarded ≡ ok cancelled
unfolding initiate_cart check_points check_stock price discount_of final_amount_of unique_number
    check_address create_tx create_orders line_discount line_coupons confirm_tx use_coupons
    use_coupons_of_order use_coupon entry_quantity use_history oldest_issued set_history
    spend_points take_stock product_quantities lower_products payment_status payment_type
    issue_reward issue_after_payment points_increase rate_of_level cancel cancel_tx return_goods
    return_tx refund_tx find_refundable restore_stock restore_product restore_points collect
    give_back_all give_back_to give_back lower_purchase recalculate appropriate_tier
    by_min_price_desc insert_tier first_reached last_tier set_payment ◌+ℤ◌ ◌-ℤ◌
cancelled_run = refl

pub returned_run : return_goods give_most clock confirmed.0.id delivered ≡ ok returned
unfolding initiate_cart check_points check_stock price discount_of final_amount_of unique_number
    check_address create_tx create_orders line_discount line_coupons confirm_tx use_coupons
    use_coupons_of_order use_coupon entry_quantity use_history oldest_issued set_history
    spend_points take_stock product_quantities lower_products payment_status payment_type
    issue_reward issue_after_payment points_increase rate_of_level cancel cancel_tx return_goods
    return_tx refund_tx find_refundable restore_stock restore_product restore_points collect
    give_back_all give_back_to give_back lower_purchase recalculate appropriate_tier
    by_min_price_desc insert_tier first_reached last_tier set_payment ◌+ℤ◌ ◌-ℤ◌
returned_run = refl
