-- ===== src/Tests/Payments.antt =====
-- The theorems on payments, on the payment of the small database.
use mathlib.Core.Option
use lif_low_backend.Prelude.{get_or}
use lif_low_backend.Prelude.{◌+ℤ◌, ◌-ℤ◌, ◌≡◌, refl, false, none, some, [], ◌∷◌}
use lif_low_backend.Schema.{
  ok, err, bad_request, Payment, order_payment_failed, order_cancelled, order_returned,
  situation_not_allowed,
}
use lif_low_backend.Coupons.{
  discount_of, use_coupons, use_coupons_of_order, use_coupon, entry_quantity, use_history,
  oldest_issued, set_history,
}
use lif_low_backend.Points.{
  spend_points, restore_points, collect, give_back_all, give_back_to, give_back,
}
use lif_low_backend.Stock.{
  take_stock, product_quantities, lower_products, restore_stock, restore_product,
}
use lif_low_backend.Stock.RoundTrip.{raise_stock_quantity}
use lif_low_backend.Reward.{issue_after_payment, points_increase, rate_of_level}
use lif_low_backend.Membership.{
  recalculate, appropriate_tier, by_min_price_desc, insert_tier, first_reached, last_tier,
}
use lif_low_backend.Membership.Laws.{balances}
use lif_low_backend.Payment.Toss.{payment_status, payment_type}
use lif_low_backend.Payment.Pricing.{check_points, check_stock, final_amount_of}
use lif_low_backend.Payment.Confirm.{confirm_tx, issue_reward, check_request, pay}
use lif_low_backend.Payment.Initiate.{
  initiate_cart, price, unique_number, check_address, create_tx, create_orders, line_discount,
  line_coupons,
}
use lif_low_backend.Payment.Refund.{
  cancel, cancel_tx, return_goods, return_tx, refund_tx, find_refundable, lower_purchase,
  set_payment,
}
use lif_low_backend.Payment.Initiate.Promise.{IsInitiated, initiate_cart-IsInitiated}
use lif_low_backend.Tests.{
  start, draw, order, initiated, request, paid, confirmed, rewarded, give_all, give_most, clock,
  cancelled, delivered, returned, outside,
}
use lif_low_backend.Prelude.{◌<◌, ◌-◌, sym, ap, inl, arith}
use lif_low_backend.Schema.{
  Error, Reason, is_completed, is_shipped, OrderGroup, ok-injective, toss_error, not_found,
  no_active_cart_items,
}
use lif_low_backend.Carts.Totals.{IsValid}
use lif_low_backend.Carts.Changes.{IsCartChange}
use lif_low_backend.Payment.Toss.{TossPayment}
use lif_low_backend.Payment.Confirm.{confirm_payment}
use lif_low_backend.Payment.Confirm.Failure.{
  IsFailed, confirm_payment-fails, confirm_payment_refuses,
}
use lif_low_backend.Payment.Confirm.Repeated.{confirm_payment-again}
use lif_low_backend.Payment.Initiate.{initiate_payment}
use lif_low_backend.Payment.Initiate.Orders.{wanted}
use lif_low_backend.Payment.Initiate.Promise.{items_of}
use lif_low_backend.Payment.Initiate.Failure.{initiate_payment-fails}
use lif_low_backend.Payment.Refund.{cancel_payment, return_payment}
use lif_low_backend.Payment.Refund.Guards.{IsRefundable}
use lif_low_backend.Payment.Refund.Closed.{
  IsRefunded, cancel-IsRefunded, return_goods-IsRefunded, cancel_closes,
}
use lif_low_backend.Payment.Refund.Restored.{cancel-restores}
use lif_low_backend.Payment.Lifecycle.{initiate-confirm-cancel}
use lif_low_backend.Payment.Initiate.{group_of}
use lif_low_backend.Tests.{world, refusing, too_little}
use lif_low_backend.Tests.Runs.{initiated_run, confirmed_run, cancelled_run, returned_run}

initiate_cart-IsInitiated_example :
    IsInitiated order (3 ∷ []) initiated.0 initiated.1 start initiated.2
initiate_cart-IsInitiated_example =
    initiate_cart-IsInitiated draw order 4 (3 ∷ []) start initiated_run

initiate-confirm-cancel_example :
    (Option.map balances (cancelled.1.users 1) ≡ Option.map balances (start.users 1))
    × (cancelled.1.products 1
        ≡ Option.map
            (raise_stock_quantity (wanted 1 (items_of (3 ∷ []) start.cart_items)))
            (start.products 1))
unfolding initiate_cart check_points check_stock price discount_of final_amount_of unique_number
    check_address create_tx create_orders line_discount line_coupons
initiate-confirm-cancel_example =
    initiate-confirm-cancel draw order 4 (3 ∷ []) start initiated_run refl refl refl refl request
      false paid 2 refl refl confirmed_run give_all clock none cancelled_run 1

cancel-restores_example :
    (Option.map balances (cancelled.1.users 1) ≡ Option.map balances (initiated.2.users 1))
    × (cancelled.1.products 1 ≡ Option.map (raise_stock_quantity 2) (initiated.2.products 1))
unfolding initiate_cart check_points check_stock price discount_of final_amount_of unique_number
    check_address create_tx create_orders line_discount line_coupons
cancel-restores_example =
    cancel-restores request 1 false paid 2 initiated.2 confirmed_run refl refl refl refl refl refl
      give_all clock none cancelled_run 1

cancel-IsRefunded_example :
    (p : Payment) × (g : OrderGroup) × (toss : TossPayment) × IsRefundable is_completed
      confirmed.0.id rewarded p g
    × (give_all p.payment_key none ≡ ok toss)
    × IsRefunded order_cancelled p g toss rewarded cancelled.0 cancelled.1
cancel-IsRefunded_example =
    cancel-IsRefunded give_all clock confirmed.0.id none rewarded cancelled_run

return_goods-IsRefunded_example :
    (p : Payment) × (g : OrderGroup) × (toss : TossPayment) × IsRefundable is_shipped confirmed.0.id
      delivered p g
    × (g.delivery_fee < p.balance_amount)
    × (give_most p.payment_key (some (p.balance_amount - g.delivery_fee)) ≡ ok toss)
    × IsRefunded order_returned p g toss delivered returned.0 returned.1
return_goods-IsRefunded_example =
    return_goods-IsRefunded give_most clock confirmed.0.id delivered returned_run

cancel_closes_example :
    (cancel_payment give_all clock confirmed.0.id none (world cancelled.1)
      ≡ (err (bad_request situation_not_allowed), world cancelled.1))
    × (return_payment give_all clock confirmed.0.id (world cancelled.1)
        ≡ (err (bad_request situation_not_allowed), world cancelled.1))
unfolding initiate_cart check_points check_stock price discount_of final_amount_of unique_number
    check_address create_tx create_orders line_discount line_coupons confirm_tx use_coupons
    use_coupons_of_order use_coupon entry_quantity use_history oldest_issued set_history
    spend_points take_stock product_quantities lower_products payment_status payment_type ◌+ℤ◌ ◌-ℤ◌
    issue_reward issue_after_payment points_increase rate_of_level cancel cancel_tx return_goods
    return_tx refund_tx find_refundable restore_stock restore_product restore_points collect
    give_back_all give_back_to give_back lower_purchase recalculate appropriate_tier
    by_min_price_desc insert_tier first_reached last_tier set_payment
cancel_closes_example =
    cancel_closes give_all clock confirmed.0.id none rewarded (world cancelled.1) cancelled_run
      give_all clock confirmed.0.id none refl refl

abbrev paid_group : OrderGroup
paid_group = get_or (confirmed.2.order_groups 42) (group_of order initiated.1 [])

confirm_payment-again_example :
    (e : Error) × ((confirm_payment outside request (world confirmed.2)).0 ≡ err e)
    × ((confirm_payment outside request (world confirmed.2)).1.db.order_groups 42
        ≡ some (record paid_group { situation = order_payment_failed }))
    × IsFailed request 1 confirmed.2 (confirm_payment outside request (world confirmed.2)).1.db
unfolding initiate_cart check_points check_stock price discount_of final_amount_of unique_number
    check_address create_tx create_orders line_discount line_coupons confirm_tx use_coupons
    use_coupons_of_order use_coupon entry_quantity use_history oldest_issued set_history
    spend_points take_stock product_quantities lower_products payment_status payment_type ◌+ℤ◌ ◌-ℤ◌
    check_request
confirm_payment-again_example =
    confirm_payment-again outside request (world confirmed.2) confirmed.0
      (λ key group amount toss answer. sym (ap (λ t. t.order_id) (ok-injective answer))) (inl refl)
      refl refl refl

confirm_payment-fails_example :
    ((confirm_payment refusing request (world initiated.2)).0 ≡ err (toss_error 400))
    × IsFailed request 1 initiated.2 (confirm_payment refusing request (world initiated.2)).1.db
unfolding check_request pay
confirm_payment-fails_example = confirm_payment-fails refusing request (world initiated.2) refl refl

confirm_payment_refuses_example :
    (r : Reason) × (confirm_payment outside too_little (world initiated.2)
      ≡ (err (bad_request r), world initiated.2))
confirm_payment_refuses_example =
    confirm_payment_refuses outside too_little (world initiated.2)
      (λ right. omega (arith, right.enough))

start-IsValid : IsValid start
start-IsValid = record { distinct = (tt, tt); totals = λ c total e. ground arith }

initiate_payment-fails_example :
    let r = initiate_payment draw order (8 ∷ []) start in
    (told : Error) × (r.0 ≡ err told)
    × (told ≡ not_found no_active_cart_items)
    × IsCartChange start r.1
    × IsValid r.1
unfolding initiate_cart check_points check_stock price discount_of final_amount_of unique_number
    check_address create_tx create_orders line_discount line_coupons
initiate_payment-fails_example =
    initiate_payment-fails draw order 4 (8 ∷ []) start refl start-IsValid refl
