-- ===== src/Schema/Enums.antt =====
-- The enumerations of prisma/schema.prisma.
use lif_low_backend.Prelude.{Bool, true, false}

pub data OrderSituation : Type 0 where
  order_payment_pending order_payment_completed order_payment_failed : OrderSituation
  order_being_shipped order_shipped order_cancelled order_returned : OrderSituation

pub data PaymentStatus : Type 0 where
  pending success failed cancelled : PaymentStatus

pub data PaymentType : Type 0 where
  normal billing brandpay : PaymentType

pub data CouponType : Type 0 where
  percent amount free_shipping : CouponType

pub data CouponHistoryStatus : Type 0 where
  issued used expired cancelled : CouponHistoryStatus

pub data CartItemStatus : Type 0 where
  active checked_out : CartItemStatus

-- The values of `pointsType` that the services write.
pub data PointsType : Type 0 where
  used_points reward : PointsType

abbrev pub is_completed : OrderSituation → Bool
is_completed order_payment_completed = true
is_completed _ = false

abbrev pub is_shipped : OrderSituation → Bool
is_shipped order_shipped = true
is_shipped _ = false

abbrev pub is_success : PaymentStatus → Bool
is_success success = true
is_success _ = false

abbrev pub is_issued : CouponHistoryStatus → Bool
is_issued issued = true
is_issued _ = false

abbrev pub is_used : CouponHistoryStatus → Bool
is_used used = true
is_used _ = false

abbrev pub is_cancelled : CouponHistoryStatus → Bool
is_cancelled cancelled = true
is_cancelled _ = false

abbrev pub is_expired : CouponHistoryStatus → Bool
is_expired expired = true
is_expired _ = false

abbrev pub is_active : CartItemStatus → Bool
is_active active = true
is_active _ = false
