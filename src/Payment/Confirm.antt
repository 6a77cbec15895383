-- ===== src/Payment/Confirm.antt =====
-- `confirmPayment` in src/modules/payment/payment.service.ts: the checks of the token and of the
-- amount, the call of Toss, the transaction, and what follows its success or any failure.
pub mod Transaction
pub mod Effects
pub mod Earned
pub mod Repeated
pub mod Failure
use mathlib.Core.Option
use lif_low_backend.Prelude.{
  ℕ, suc, pos, ◌+ℤ◌, String, Bool, true, false, not, ◌&&◌, ◌||◌, Option, none, some, List, [], ◌∷◌,
  ◌==◌, ltb, if◌then◌else◌, is_some_of, filter, find, contains, is_empty,
}
use lif_low_backend.Schema.{
  User, Order, OrderGroup, CartItem, order_payment_completed, order_payment_failed, Payment, failed,
  PaymentType, Db, Table, put, Result, ok, err, ◌>>=◌, ◌>>◌, or_throw, throw_if, Error, not_found,
  bad_request, p2002, p2003, order_group_not_found, user_not_found, no_orders_found,
  token_outdated_or_invalid, user_id_required, minimum_payment_amount,
}
use lif_low_backend.Stock.{take_stock}
use lif_low_backend.Points.{spend_points}
use lif_low_backend.Reward.{issue_after_payment}
use lif_low_backend.Coupons.{CouponEntry, use_coupons}
use lif_low_backend.Carts.{remove_items}
use lif_low_backend.Payment.Toss.{TossPayment, payment_exists, payment_of}

-- `PaymentTokenPayload`, and the request.
pub record TokenPayload : Type 0 where
  pub order_group_number : ℕ
  pub user_id : ℕ
  pub direct_pay : Bool

pub record ConfirmRequest : Type 0 where
  pub payment_token : ℕ
  pub payment_key : ℕ
  pub order_group_number : ℕ
  pub amount : ℕ
  pub user_id : Option ℕ
  pub cart_items : List ℕ
  pub coupons : List CouponEntry

abbrev pub orders_of : ℕ → List Order → List Order
orders_of group = filter λ o. is_some_of group o.order_group_number

-- Step 2.1b.
abbrev pub without_cart_items : Bool → List ℕ → List CartItem → List CartItem
without_cart_items direct_pay ids items =
    if not direct_pay && not (is_empty ids)
    then filter (λ i. not (contains i.id ids)) items
    else items

-- Step 2.7.
abbrev pub add_purchase : ℕ → User → User
add_purchase amount u = record u {
  total_purchase_amount = Option.map (λ z. z +ℤ pos amount) u.total_purchase_amount;
}

-- Step 2.9.
abbrev pub complete_group : ℕ → OrderGroup → OrderGroup
complete_group payment_id g = record g {
  situation = order_payment_completed;
  payment_id = some payment_id;
}

-- The transaction (steps 2.1 to 2.10): the saved payment, the level of the user before it, and the
-- database. An exception leaves the database as it was.
unfoldable pub confirm_tx :
    ConfirmRequest → ℕ → Bool → TossPayment → ℕ → Db → Result (Payment × Option String × Db)
confirm_tx req user_id direct_pay toss now db = do
  let group = req.order_group_number
  g ← or_throw (db.order_groups group) (not_found order_group_not_found)
  u ← or_throw (db.users user_id) (not_found user_not_found)
  let orders = orders_of group db.orders
  throw_if (is_empty orders) (not_found no_orders_found)
  let histories =
      use_coupons req.coupons db.coupons user_id now orders (db.coupon_histories, db.last_id)
  let spent = spend_points user_id group g.points_used u db.points
  let id = suc histories.1
  throw_if (payment_exists toss.order_id toss.payment_key db.payments) p2002
  known ← or_throw (db.order_groups toss.order_id) p2003
  ok (
    payment_of id user_id toss,
    u.membership_level,
    record db {
      cart_items = without_cart_items direct_pay g.cart_item_ids db.cart_items;
      coupon_histories = histories.0;
      last_id = id;
      points = spent.1;
      users = put user_id (add_purchase g.final_amount spent.0) db.users;
      payments = payment_of id user_id toss ∷ db.payments;
      order_groups = put group (complete_group id g) db.order_groups;
      products = take_stock orders db.products;
    },
  )

-- The job that is queued after a payment, and what a notification is about.
pub record MembershipJob : Type 0 where
  pub user_id : ℕ
  pub level_before : Option String
  pub payment_amount : ℕ
  pub order_group_number : ℕ
  pub payment_id : ℕ

pub data Notice : Type 0 where
  payment_completed payment_failed payment_cancelled payment_returned : ℕ → ℕ → Notice

-- The database with the queue of jobs and the notifications that were sent.
pub record World : Type 0 where
  pub db : Db
  pub jobs : List MembershipJob
  pub notices : List Notice

-- What the service relies on from outside: the verification of a token, the answer of Toss to a
-- confirmation (payment key, order id, amount), whether the queue takes a job, and the clock.
pub record Outside : Type 0 where
  pub verify_token : ℕ → Option TokenPayload
  pub toss_confirm : ℕ → ℕ → ℕ → Result TossPayment
  pub queue_is_up : Bool
  pub now : ℕ

abbrev pub minimum_amount : ℕ
minimum_amount = 200

-- The checks before the call of Toss: the token, the user, and the amount.
unfoldable pub check_request : Outside → ConfirmRequest → Result (Bool × ℕ)
check_request out req = do
  token ← or_throw (out.verify_token req.payment_token) (bad_request token_outdated_or_invalid)
  throw_if
      (not (token.order_group_number == req.order_group_number)
        || not (is_some_of token.user_id req.user_id))
      (bad_request token_outdated_or_invalid)
  user_id ← or_throw req.user_id (bad_request user_id_required)
  throw_if (ltb req.amount minimum_amount) (bad_request minimum_payment_amount)
  ok (token.direct_pay, user_id)

-- Step 2.13, where an exception is only logged.
unfoldable pub issue_reward : ℕ → Payment → ℕ → Option String → Db → Db
issue_reward user_id p group level_before db =
    elim (issue_after_payment user_id p.total_amount (some group) level_before db.order_groups
      (db.users, db.points)) [ ok s ↦ record db { users = s.0; points = s.1 } | err _ ↦ db ]

-- Steps 2.13 to 2.15, after the transaction.
pub after_commit : Outside → ConfirmRequest → ℕ → Payment → Option String → Db → World → World
after_commit out req user_id p level_before db w = record {
  db = issue_reward user_id p req.order_group_number level_before db;
  jobs =
      if out.queue_is_up
      then record {
        user_id = user_id;
        level_before = level_before;
        payment_amount = p.total_amount;
        order_group_number = req.order_group_number;
        payment_id = p.id;
      }
        ∷ w.jobs
      else w.jobs;
  notices = payment_completed user_id req.order_group_number ∷ w.notices;
}

-- `updateMany`: a group that is not there is no error.
abbrev pub fail_group : ℕ → Table OrderGroup → Table OrderGroup
fail_group group t j =
    if j == group
    then Option.map (λ (g : OrderGroup). record g { situation = order_payment_failed }) (t j)
    else t j

abbrev pub failed_payment : ℕ → ℕ → ConfirmRequest → Payment
failed_payment id user_id req = record {
  id = id;
  user_id = user_id;
  order_group_number = req.order_group_number;
  payment_key = req.payment_key;
  total_amount = req.amount;
  balance_amount = 0;
  status = failed;
  payment_type = PaymentType.normal;
  canceled_amount = pos 0;
  approved_at = none;
  details = 0;
}

-- The record of the failed payment is kept, unless a unique column or a missing row forbids it:
-- that exception is only logged.
pub save_failed_payment : ConfirmRequest → ℕ → Db → Db
save_failed_payment req user_id db =
    if payment_exists req.order_group_number req.payment_key db.payments
    then db
    else elim (db.order_groups req.order_group_number) [
      | none ↦ db
      | some _ ↦ elim (db.users user_id) [
        | none ↦ db
        | some _ ↦ record db {
          payments = failed_payment (suc db.last_id) user_id req ∷ db.payments;
          last_id = suc db.last_id;
        }
      ]
    ]

-- The `catch` of the second `try`, up to the `throw`.
pub after_failure : ConfirmRequest → ℕ → Bool → World → World
after_failure req user_id direct_pay w =
    let emptied = if direct_pay then w.db else remove_items req.cart_items w.db in
    let failed_db = record emptied {
      order_groups = fail_group req.order_group_number emptied.order_groups;
    } in
    record w {
      db = save_failed_payment req user_id failed_db;
      notices = payment_failed user_id req.order_group_number ∷ w.notices;
    }

-- The call of Toss and the transaction.
unfoldable pub pay :
    Outside → ConfirmRequest → ℕ → Bool → Db → Result (Payment × Option String × Db)
pay out req user_id direct_pay db = do
  toss ← out.toss_confirm req.payment_key req.order_group_number req.amount
  confirm_tx req user_id direct_pay toss out.now db

pub confirm_payment : Outside → ConfirmRequest → World → Result Payment × World
confirm_payment out req w = elim (check_request out req) [
  | err e ↦ (err e, w)
  | ok (direct_pay, user_id) ↦ elim (pay out req user_id direct_pay w.db) [
    | ok (p, level_before, db) ↦ (ok p, after_commit out req user_id p level_before db w)
    | err e ↦ (err e, after_failure req user_id direct_pay w)
  ]
]
