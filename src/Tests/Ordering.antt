-- ===== src/Tests/Ordering.antt =====
-- The theorems on the creation of orders, on their serials and on cancelled groups.
use lif_low_backend.Prelude.{pos, ◌*◌, ◌/◌, ◌≡◌, refl, none, some, [], ◌∷◌, arith, false}
use lif_low_backend.Schema.{
  Payment, PaymentStatus, PaymentType, OrderGroup, order_payment_completed, Reason, put, ok, err,
  bad_request, internal, no_unique_number, failed_to_create_order, Db, Result,
}
use lif_low_backend.Payment.Confirm.{World}
use lif_low_backend.Payment.Toss.{TossStatus, TossPayment}
use lif_low_backend.Payment.Refund.{find_payment, cancel_payment, return_payment}
use lif_low_backend.Payment.Sync.{synced, sync_payment, sync_payment-no_refund}
use lif_low_backend.Orders.Numbers.{
  Numbers, generate_unique_order_number, generate_order_number, is_taken,
}
use lif_low_backend.Orders.Serials.{generate_unique_order_number-free}
use lif_low_backend.Orders.Hundred.{generate_unique_order_number-hundred}
use lif_low_backend.Orders.Creation.{CreateOrder, create}
use lif_low_backend.Orders.Failure.{create_fails}
use lif_low_backend.Orders.Groups.{cancel_order_group, cancel_order_group-no_refund}
use lif_low_backend.Tests.{start, clock, give_all, toss_of}

abbrev few : Numbers
few = (42, 2) ∷ (42, 1) ∷ (7, 500) ∷ []

generate_unique_order_number-free_example :
    (generate_unique_order_number 5 42 few ≡ ok (generate_order_number 42 few))
    × (is_taken 42 (generate_order_number 42 few) few ≡ false)
generate_unique_order_number-free_example =
    generate_unique_order_number-free 42 few (λ _. omega arith, (λ _. omega arith, (λ h. cc h, tt)))

abbrev full : Numbers
full = (42, 100) ∷ (42, 99) ∷ []

generate_unique_order_number-hundred_example :
    generate_unique_order_number 5 42 full ≡ err (internal no_unique_number)
generate_unique_order_number-hundred_example =
    generate_unique_order_number-hundred 42 full (λ _. omega arith, (λ _. omega arith, tt)) refl
      refl

abbrev one_piece : CreateOrder
one_piece = record {
  serial = none;
  cart_id = 9;
  product_id = some 1;
  quantity = 1;
  total_order_amount = 5000;
  total_payment_amount = 5000;
  discount_amount = 0;
}

create_fails_example :
    create (λ total rate. total * rate / 100) (one_piece ∷ []) 0 1 [] 42 7 (start, few)
    ≡ err (internal failed_to_create_order)
create_fails_example =
    create_fails (λ total rate. total * rate / 100) one_piece [] 0 1 [] 42 7 (start, few)

abbrev settled : Payment
settled = record {
  id = 8;
  user_id = 1;
  order_group_number = 42;
  payment_key = 77;
  total_amount = 12500;
  balance_amount = 12500;
  status = PaymentStatus.success;
  payment_type = PaymentType.normal;
  canceled_amount = pos 0;
  approved_at = some 2;
  details = 0;
}

abbrev completed : OrderGroup
completed = record {
  original_amount = 10000;
  discount_amount = 0;
  orderer_id = some 1;
  situation = order_payment_completed;
  final_amount = 12500;
  points_used = 0;
  cart_item_ids = [];
  delivery_fee = 2500;
  payment_id = some 8;
  courier_company = none;
  invoice_number = none;
}

abbrev paid_db : Db
paid_db = record start {
  payments = settled ∷ [];
  order_groups = put 42 completed start.order_groups;
}

abbrev at_work : Db → World
at_work db = record { db = db; jobs = []; notices = [] }

abbrev or_same : Result Db → Db
or_same (ok db) = db
or_same (err _) = start

abbrev undone : World
undone = at_work (or_same (cancel_order_group 42 paid_db))

cancel_order_group-no_refund_example :
    ((r : Reason) × (cancel_payment give_all clock 8 none undone ≡ (err (bad_request r), undone)))
    × ((r : Reason) × (return_payment give_all clock 8 undone ≡ (err (bad_request r), undone)))
unfolding cancel_order_group
cancel_order_group-no_refund_example =
    cancel_order_group-no_refund give_all clock 8 none (at_work paid_db) undone refl refl

-- What Toss says after a cancellation that it was asked for elsewhere.
abbrev voided : TossPayment
voided = record (toss_of 42 77 12500 0) { status = TossStatus.canceled }

sync_payment-no_refund_example :
    (db' : Db) × (sync_payment (λ _. ok voided) (λ _. none) 77 paid_db
      ≡ ok (synced voided settled, db'))
    × (db' ≡ record paid_db { payments = db'.payments })
    × (find_payment 8 db'.payments ≡ some (synced voided settled))
    × ((r : Reason) × (cancel_payment give_all clock 8 none (at_work db')
          ≡ (err (bad_request r), at_work db')))
    × ((r : Reason) × (return_payment give_all clock 8 (at_work db')
          ≡ (err (bad_request r), at_work db')))
sync_payment-no_refund_example =
    sync_payment-no_refund (λ _. ok voided) (λ _. none) give_all clock 77 none (at_work paid_db)
      refl refl refl refl refl
