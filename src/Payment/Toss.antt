-- ===== src/Payment/Toss.antt =====
-- What Toss Payments answers (src/modules/payment/dto/toss-payment.dto.ts), and how the payment
-- service reads it. Toss itself is an argument of the services.
use lif_low_backend.Prelude.{ℕ, Bool, false, ◌||◌, Option, List, [], ◌∷◌, ◌==◌, pos}
use lif_low_backend.Schema.{PaymentStatus, pending, success, failed, PaymentType, Payment}

-- `other` is any text that the source's table does not list.
pub data TossStatus : Type 0 where
  ready in_progress waiting_for_deposit done canceled partial_canceled aborted expired : TossStatus
  other : TossStatus

pub data TossType : Type 0 where
  normal billing brandpay other : TossType

-- `details` stands for the fields that are copied into the payment and read by no service.
pub record TossPayment : Type 0 where
  pub order_id : ℕ
  pub payment_key : ℕ
  pub total_amount : ℕ
  pub balance_amount : ℕ
  pub status : TossStatus
  pub toss_type : TossType
  pub approved_at : Option ℕ
  pub details : ℕ

-- `mapTossStatusToPaymentStatus`
unfoldable pub payment_status : TossStatus → PaymentStatus
payment_status ready = pending
payment_status in_progress = pending
payment_status waiting_for_deposit = pending
payment_status done = success
payment_status canceled = PaymentStatus.cancelled
payment_status partial_canceled = success
payment_status aborted = failed
payment_status expired = failed
payment_status other = pending

-- `mapTossTypeToPaymentType`
unfoldable pub payment_type : TossType → PaymentType
payment_type TossType.normal = PaymentType.normal
payment_type TossType.billing = PaymentType.billing
payment_type TossType.brandpay = PaymentType.brandpay
payment_type TossType.other = PaymentType.normal

-- The unique columns of `payments`: one payment for an order group, and one for a payment key.
abbrev pub payment_exists : ℕ → ℕ → List Payment → Bool
payment_exists group key [] = false
payment_exists group key (p ∷ ps) =
    (p.order_group_number == group || p.payment_key == key) || payment_exists group key ps

-- The row that a confirmed payment leaves.
abbrev pub payment_of : ℕ → ℕ → TossPayment → Payment
payment_of id user_id toss = record {
  id = id;
  user_id = user_id;
  order_group_number = toss.order_id;
  payment_key = toss.payment_key;
  total_amount = toss.total_amount;
  balance_amount = toss.balance_amount;
  status = payment_status toss.status;
  payment_type = payment_type toss.toss_type;
  canceled_amount = pos 0;
  approved_at = toss.approved_at;
  details = toss.details;
}
