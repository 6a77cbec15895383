-- ===== src/Tests.antt =====
-- A small database on which the theorems are tried: one user, one product, one cart item, three
-- membership tiers and one coupon; a request for a payment, its confirmation, and what Toss says.
mod Runs
mod Payments
mod Totals
mod Parts
mod Baskets
mod Wallets
mod Promotions
mod Members
mod Ordering
use mathlib.Core.Option
use lif_low_backend.Prelude.{ℕ, String, true, false, pos, Option, none, some, List, [], ◌∷◌}
use lif_low_backend.Schema.{
  User, Membership, Product, CartItem, active, Coupon, percent, Payment, PaymentType, pending,
  order_shipped, OrderGroup, Db, Table, put, Result, ok, err, toss_error,
}
use lif_low_backend.Coupons.{CouponEntry}
use lif_low_backend.Membership.{Clock}
use lif_low_backend.Payment.Toss.{TossPayment, TossStatus, TossType}
use lif_low_backend.Payment.Confirm.{
  TokenPayload, ConfirmRequest, Outside, World, confirm_tx, issue_reward,
}
use lif_low_backend.Payment.Initiate.{InitiateRequest, Amounts, initiate_cart, initiate_product}
use lif_low_backend.Payment.Refund.{TossCancel, cancel, return_goods}

abbrev pub empty {ℓ} : {V : Type ℓ} → Table V
empty _ = none

abbrev pub user : User
user = record {
  name = some "Kim";
  phone_number = none;
  membership_level = some "LV2. 새싹";
  available_points = some (pos 1000);
  total_used_points = some (pos 0);
  total_purchase_amount = some (pos 5000);
}

abbrev pub tier : ℕ → ℕ → Membership
tier id price = record {
  id = id;
  name = some "tier";
  description = none;
  min_price = some price;
  base_period = some 6;
}

abbrev pub tiers : List Membership
tiers = tier 1 0 ∷ tier 3 50000 ∷ tier 2 10000 ∷ []

abbrev pub product : Product
product = record {
  product_name = none;
  sale_price = some 5000;
  origin = some (pos 10);
  stock_quantity = some (pos 10);
  display_status = some (32 ∷ 89 ∷ []);
}

abbrev pub item : CartItem
item = record {
  id = 3;
  cart_id = 9;
  product_id = 1;
  quantity = 2;
  sale_price = 5000;
  status = active;
}

abbrev pub coupon : Coupon
coupon = record {
  id = 5;
  code = "TEN";
  coupon_type = percent;
  discount_rate = some 10;
  discount_amount = none;
  max_discount_amount = some 300;
  min_purchase_amount = 0;
  is_permanent = false;
  is_active = true;
  is_auto_issue = false;
  target_grades = [];
  start_date = none;
  end_date = none;
}

abbrev pub start : Db
start = record {
  users = put 1 user empty;
  user_memberships = empty;
  memberships = tiers;
  products = put 1 product empty;
  carts = put 9 10000 empty;
  cart_of = put 1 9 empty;
  checked_out_at = empty;
  address_owner = put 4 1 empty;
  cart_items = item ∷ [];
  orders = [];
  order_groups = empty;
  payments = [];
  points = [];
  coupons = coupon ∷ [];
  coupon_histories = [];
  last_id = 100;
}

abbrev pub draw : ℕ → ℕ
draw _ = 42

abbrev pub order : InitiateRequest
order = record {
  user_id = 1;
  coupons = record { coupon_id = 5; quantity = none } ∷ [];
  address = some 4;
  points = some 200;
  delivery_fee = some 3000;
}

-- The value of a result, and what stands for an exception.
abbrev pub value_or {ℓ} : {A : Type ℓ} → A → Result A → A
value_or a (ok b) = b
value_or a (err _) = a

abbrev pub no_amounts : Amounts
no_amounts = record { original = 0; discount = 0; final = 0; fee = 0 }

abbrev pub initiated : ℕ × Amounts × Db
initiated = value_or (0, no_amounts, start) (initiate_cart draw order 4 (3 ∷ []) start)

abbrev pub request : ConfirmRequest
request = record {
  payment_token = 1;
  payment_key = 77;
  order_group_number = 42;
  amount = 12500;
  user_id = some 1;
  cart_items = 3 ∷ [];
  coupons = record { coupon_id = 5; quantity = none } ∷ [];
}

abbrev pub toss_of : ℕ → ℕ → ℕ → ℕ → TossPayment
toss_of group key total balance = record {
  order_id = group;
  payment_key = key;
  total_amount = total;
  balance_amount = balance;
  status = TossStatus.done;
  toss_type = TossType.normal;
  approved_at = some 2;
  details = 0;
}

abbrev pub paid : TossPayment
paid = toss_of 42 77 12500 12500

abbrev pub clock : Clock
clock = record { now = 10; one_year_from_now = 375 }

-- Toss gives all of it back, or all but the delivery fee.
abbrev pub give_all : TossCancel
give_all key _ = ok (toss_of 42 key 12500 0)

abbrev pub give_most : TossCancel
give_most key _ = ok (toss_of 42 key 12500 3000)

abbrev pub outside : Outside
outside = record {
  verify_token = λ _. some (record { order_group_number = 42; user_id = 1; direct_pay = false });
  toss_confirm = λ key group amount. ok (toss_of group key amount amount);
  queue_is_up = true;
  now = 2;
}

abbrev pub no_payment : Payment
no_payment = record {
  id = 0;
  user_id = 0;
  order_group_number = 0;
  payment_key = 0;
  total_amount = 0;
  balance_amount = 0;
  status = pending;
  payment_type = PaymentType.normal;
  canceled_amount = pos 0;
  approved_at = none;
  details = 0;
}

abbrev pub confirmed : Payment × Option String × Db
confirmed = value_or (no_payment, none, start) (confirm_tx request 1 false paid 2 initiated.2)

-- The database after the payment and its reward.
abbrev pub rewarded : Db
rewarded = issue_reward 1 confirmed.0 42 confirmed.1 confirmed.2

abbrev pub cancelled : Payment × Db
cancelled = value_or (no_payment, start) (cancel give_all clock confirmed.0.id none rewarded)

-- The same database once the parcel has arrived.
abbrev pub arrive : OrderGroup → OrderGroup
arrive g = record g { situation = order_shipped }

abbrev pub delivered : Db
delivered = record rewarded { order_groups = λ j. Option.map arrive (rewarded.order_groups j) }

abbrev pub returned : Payment × Db
returned = value_or (no_payment, start) (return_goods give_most clock confirmed.0.id delivered)

abbrev pub world : Db → World
world db = record { db = db; jobs = []; notices = [] }

-- Toss refuses every payment.
abbrev pub refusing : Outside
refusing = record outside { toss_confirm = λ _ _ _. err (toss_error 400) }

-- A request for less than the minimum.
abbrev pub too_little : ConfirmRequest
too_little = record request { amount = 100 }

abbrev pub direct : ℕ × Amounts × Db
direct = value_or (0, no_amounts, start) (initiate_product draw order 4 1 2 start)

abbrev pub nowhere : InitiateRequest
nowhere = record order { address = none }
