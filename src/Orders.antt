-- ===== src/Orders.antt =====
-- `updateOrderGroup` in src/modules/order/order.service.ts, with the notification that it sends and
-- the normalisation of errors that it ends in. The name of the group is left out.
pub mod Shipping
pub mod Numbers
pub mod Serials
pub mod Hundred
pub mod Redemption
pub mod Creation
pub mod Failure
pub mod Groups
use mathlib.Core.Option
use lif_low_backend.Prelude.{
  ℕ, Bool, true, false, not, ◌&&◌, ◌||◌, Option, none, some, List, [], ◌∷◌, ◌==◌, leb,
  if◌then◌else◌, get_or,
}
use lif_low_backend.Schema.{
  Text, is_blank_text, User, OrderGroup, OrderSituation, order_payment_pending,
  order_payment_completed, order_payment_failed, order_being_shipped, order_shipped,
  order_cancelled, order_returned, Db, Table, put, Result, ok, err, ◌>>=◌, ◌>>◌, or_throw, throw_if,
  update, Error, Reason, not_found, bad_request, conflict, validation, internal, p2002, p2003,
  p2025, p1001, order_group_not_found, final_state, orderer_not_found, courier_and_invoice_required,
  not_unique_field, invalid_data, database_connection, failed_to_update_order_group,
}

-- `UpdateOrderGroupDto`
pub record UpdateOrderGroup : Type 0 where
  pub original_amount : Option ℕ
  pub discount_amount : Option ℕ
  pub final_amount : Option ℕ
  pub points_used : Option ℕ
  pub cart_item_ids : Option (List ℕ)
  pub delivery_fee : Option ℕ
  pub orderer_id : Option ℕ
  pub courier_company : Option Text
  pub invoice_number : Option Text
  pub situation : Option OrderSituation

-- `!text?.trim()`
abbrev pub is_blank : Option Text → Bool
is_blank none = true
is_blank (some t) = is_blank_text t

abbrev pub is_final : OrderSituation → Bool
is_final order_cancelled = true
is_final order_returned = true
is_final _ = false

abbrev pub needs_parcel : OrderSituation → Bool
needs_parcel order_being_shipped = true
needs_parcel order_shipped = true
needs_parcel _ = false

abbrev pub situation_index : OrderSituation → ℕ
situation_index order_payment_pending = 0
situation_index order_payment_completed = 1
situation_index order_payment_failed = 2
situation_index order_being_shipped = 3
situation_index order_shipped = 4
situation_index order_cancelled = 5
situation_index order_returned = 6

-- `dto.x !== undefined ? dto.x : existing.x`
abbrev pub or_existing {ℓ} : {A : Type ℓ} → Option A → Option A → Option A
or_existing none existing = existing
or_existing (some a) _ = some a

abbrev pub is_given {ℓ} : {A : Type ℓ} → Option A → Bool
is_given none = false
is_given (some _) = true

-- The situation after the update: the one of the request, or, with both a courier and an invoice
-- number in the request, that of a parcel on its way.
unfoldable pub next_situation : UpdateOrderGroup → OrderSituation → OrderSituation
next_situation dto existing = get_or dto.situation (
    if is_given dto.invoice_number && is_given dto.courier_company
    then order_being_shipped
    else existing)

unfoldable pub updated : UpdateOrderGroup → OrderGroup → OrderGroup
updated dto g = record g {
  original_amount = get_or dto.original_amount g.original_amount;
  discount_amount = get_or dto.discount_amount g.discount_amount;
  final_amount = get_or dto.final_amount g.final_amount;
  points_used = get_or dto.points_used g.points_used;
  cart_item_ids = get_or dto.cart_item_ids g.cart_item_ids;
  delivery_fee = get_or dto.delivery_fee g.delivery_fee;
  orderer_id = or_existing dto.orderer_id g.orderer_id;
  courier_company = or_existing dto.courier_company g.courier_company;
  invoice_number = or_existing dto.invoice_number g.invoice_number;
  situation = next_situation dto g.situation;
}

-- The user whom the request makes the orderer has to be there.
unfoldable pub check_orderer : Table User → Option ℕ → Result (Unit {0})
check_orderer users none = ok tt
check_orderer users (some k) = or_throw (users k) (validation orderer_not_found) >>= λ _. ok tt

-- Whom to tell of the new situation.
unfoldable pub situation_notice : OrderSituation → OrderGroup → Option (ℕ × OrderSituation)
situation_notice before g =
    if not (situation_index g.situation == situation_index before) && needs_parcel g.situation
    then Option.map (λ k. (k, g.situation)) g.orderer_id
    else none

-- The `try` of `updateOrderGroup`.
unfoldable pub try_update : UpdateOrderGroup → ℕ → Db → Result (Option (ℕ × OrderSituation) × Db)
try_update dto group db = do
  g ← or_throw (db.order_groups group) (not_found order_group_not_found)
  throw_if (is_final g.situation) (bad_request final_state)
  check_orderer db.users dto.orderer_id
  let g' = updated dto g
  throw_if
      (needs_parcel g'.situation && (is_blank g'.courier_company || is_blank g'.invoice_number))
      (bad_request courier_and_invoice_required)
  ok (situation_notice g.situation g', record db { order_groups = put group g' db.order_groups })

-- `handleOrderGroupPrismaError`; `not_found` is OrderGroupNotFoundException, the only exception of
-- the service itself that is thrown on.
pub normalise_group_error : Reason → Error → Error
normalise_group_error message (not_found r) = not_found r
normalise_group_error message p2002 = validation not_unique_field
normalise_group_error message p2003 = validation invalid_data
normalise_group_error message p2025 = not_found order_group_not_found
normalise_group_error message p1001 = internal database_connection
normalise_group_error message _ = internal message

abbrev pub caught {ℓ} : {A : Type ℓ} → Reason → Result A → Result A
caught message (ok a) = ok a
caught message (err e) = err (normalise_group_error message e)

unfoldable pub update_order_group :
    UpdateOrderGroup → ℕ → Db → Result (Option (ℕ × OrderSituation) × Db)
update_order_group dto group db = caught failed_to_update_order_group (try_update dto group db)
