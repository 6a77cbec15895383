-- ===== src/Payment.antt =====
-- The payments of src/modules/payment/payment.service.ts: confirmation,
-- cancellation, return and synchronisation.
pub mod Toss
pub mod Confirm
pub mod Refund
pub mod Pricing
pub mod Initiate
pub mod Lifecycle
pub mod Sync
