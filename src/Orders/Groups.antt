-- ===== src/Orders/Groups.antt =====
-- Order groups that are made and cancelled by hand: `createOrderGroup`
-- and `cancelOrderGroup` in src/modules/order/order.service.ts.
use lif_low_backend.Prelude.{
  ℕ, ◌≡◌, refl, subst, ap, ◌∙◌, sym, Option, none, some, List, [], get_or, Option-cases, inl, inr,
  ==_iff,
}
use lif_low_backend.Schema.{
  OrderGroup, OrderSituation, order_payment_pending, order_payment_failed, Payment, Db, put, Result,
  ok, err, Error, Reason, ◌>>=◌, ◌>>◌, update, ok-injective, not_found, bad_request, validation,
  p2002, p2025, order_group_not_found, invalid_data, not_unique_field, p2003,
  failed_to_create_order_group, failed_to_cancel_order_group,
}
use lif_low_backend.Membership.{Clock}
use lif_low_backend.Orders.{caught, check_orderer}
use lif_low_backend.Payment.Confirm.{World}
use lif_low_backend.Payment.Refund.{find_payment, TossCancel, cancel_payment, return_payment}
use lif_low_backend.Payment.Refund.Guards.{cancel_payment_refuses, return_payment_refuses}

-- `handlePrismaError` of repositories/order-group.repository.ts, for the errors that a call of the
-- database ends in.
abbrev pub repository_error : Error → Error
repository_error p2025 = not_found order_group_not_found
repository_error p2003 = validation invalid_data
repository_error p2002 = validation not_unique_field
repository_error e = e

abbrev pub in_repository {ℓ} : {A : Type ℓ} → Result A → Result A
in_repository (ok a) = ok a
in_repository (err e) = err (repository_error e)

-- `CreateOrderGroupDto`, with the number, which is generated if it is not given.
pub record CreateOrderGroup : Type 0 where
  pub order_group_number : ℕ
  pub original_amount : ℕ
  pub discount_amount : Option ℕ
  pub final_amount : ℕ
  pub points_used : Option ℕ
  pub cart_item_ids : Option (List ℕ)
  pub delivery_fee : Option ℕ
  pub situation : Option OrderSituation
  pub orderer_id : Option ℕ

-- `createOrderGroupDto.ordererId || userId`
abbrev pub orderer_of : CreateOrderGroup → Option ℕ → Option ℕ
orderer_of dto user_id = elim dto.orderer_id [ none ↦ user_id | some k ↦ some k ]

abbrev pub created_group : CreateOrderGroup → Option ℕ → OrderGroup
created_group dto user_id = record {
  original_amount = dto.original_amount;
  discount_amount = get_or dto.discount_amount 0;
  orderer_id = orderer_of dto user_id;
  situation = get_or dto.situation order_payment_pending;
  final_amount = dto.final_amount;
  points_used = get_or dto.points_used 0;
  cart_item_ids = get_or dto.cart_item_ids [];
  delivery_fee = get_or dto.delivery_fee 0;
  payment_id = none;
  courier_company = none;
  invoice_number = none;
}

-- `orderGroup.create`, whose number is unique.
abbrev pub insert_group : ℕ → OrderGroup → Db → Result Db
insert_group group g db = elim (db.order_groups group) [
  | some _ ↦ err p2002
  | none ↦ ok (record db { order_groups = put group g db.order_groups })
]

unfoldable pub create_order_group : CreateOrderGroup → Option ℕ → Db → Result Db
create_order_group dto user_id db = caught failed_to_create_order_group (
    check_orderer db.users (orderer_of dto user_id)
    >> in_repository (insert_group dto.order_group_number (created_group dto user_id) db))

abbrev pub failed_group : OrderGroup → OrderGroup
failed_group g = record g { situation = order_payment_failed }

-- `cancelOrderGroup`: neither the situation nor the user who asks is looked at.
unfoldable pub cancel_order_group : ℕ → Db → Result Db
cancel_order_group group db = caught failed_to_cancel_order_group (
    in_repository (update group failed_group db.order_groups) >>= λ groups.
    ok (record db { order_groups = groups }))

cancelled :
    (group : ℕ) (db : Db) {db' : Db}
    → cancel_order_group group db ≡ ok db'
    → (g : OrderGroup) × (db.order_groups group ≡ some g)
      × (db' ≡ record db { order_groups = put group (failed_group g) db.order_groups })
unfolding cancel_order_group
cancelled group db h = elim (Option-cases (db.order_groups group)) [
  | inl e ↦ cc (rw e at h)
  | inr (g, e) ↦ (g, e, sym (ok-injective (rw e at h)))
]

-- After `cancelOrderGroup` has gone through, a payment of the group that is found can neither be
-- cancelled nor returned, whatever the situation of the group was: both requests are refused with a
-- "bad request", and nothing changes.
pub cancel_order_group-no_refund :
    (toss_cancel : TossCancel) (clock : Clock) (id : ℕ) (amount : Option ℕ) (w w' : World)
    {p : Payment}
    → find_payment id w.db.payments ≡ some p
    → cancel_order_group p.order_group_number w.db ≡ ok w'.db
    → ((r : Reason) × (cancel_payment toss_cancel clock id amount w' ≡ (err (bad_request r), w')))
      × ((r : Reason) × (return_payment toss_cancel clock id w' ≡ (err (bad_request r), w')))
cancel_order_group-no_refund toss_cancel clock id amount w w' {p} found h =
    let (g, _, q) = cancelled p.order_group_number w.db h in
    let found' : find_payment id w'.db.payments ≡ some p =
      subst (λ (db : Db). find_payment id db.payments ≡ some p) (sym q) found in
    let failed : w'.db.order_groups p.order_group_number ≡ some (failed_group g) =
      ap (λ (db : Db). db.order_groups p.order_group_number) q
      ∙ rw ((==_iff p.order_group_number p.order_group_number).1 refl) refl in
    (
      cancel_payment_refuses toss_cancel clock id amount w' found' failed (λ r. cc r.0),
      return_payment_refuses toss_cancel clock id w' found' failed (λ r. cc r.0),
    )
