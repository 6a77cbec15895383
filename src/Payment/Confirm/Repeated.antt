-- ===== src/Payment/Confirm/Repeated.antt =====
-- A second confirmation of one order group.
use lif_low_backend.Prelude.{
  ℕ, Listed, ◌≡◌, refl, Bool, true, some, List, [], ◌∷◌, arith, ==_iff, ◌∙◌, Bool-cases,
  Option-cases, inl, inr,
}
use lif_low_backend.Schema.{
  OrderGroup, order_payment_failed, Payment, Db, ok, err, Error, not_found, order_group_not_found,
  user_not_found, no_orders_found, p2002, Result-cases,
}
use lif_low_backend.Payment.Toss.{TossPayment, payment_exists}
use lif_low_backend.Payment.Confirm.{
  ConfirmRequest, World, Outside, check_request, confirm_tx, fail_group, pay, confirm_payment,
  is_empty, orders_of,
}
use lif_low_backend.Payment.Confirm.Failure.{IsFailed, confirm_payment-fails}

-- One payment for an order group: a transaction fails where the order group that Toss names
-- already has a payment.
pub confirm_tx-paid :
    (req : ConfirmRequest) (user_id : ℕ) (direct : Bool) (toss : TossPayment) (now : ℕ) (db : Db)
    → payment_exists toss.order_id toss.payment_key db.payments ≡ true
    → (e : Error) × (confirm_tx req user_id direct toss now db ≡ err e)
unfolding confirm_tx
confirm_tx-paid req user_id direct toss now db paid =
    elim (Option-cases (db.order_groups req.order_group_number)) [
      | inl e ↦ (not_found order_group_not_found, rw e refl)
      | inr (g, e) ↦ elim (Option-cases (db.users user_id)) [
        | inl f ↦ (not_found user_not_found, rw (e, f) refl)
        | inr (u, f) ↦ elim (Bool-cases (is_empty (orders_of req.order_group_number db.orders))) [
          | inl n ↦ (not_found no_orders_found, rw (e, f, n) refl)
          | inr n ↦ (p2002, rw (e, f, n, paid) refl)
        ]
      ]
    ]

Listed-payment_exists :
    (p : Payment) (key : ℕ) (ps : List Payment)
    → Listed p ps
    → payment_exists p.order_group_number key ps ≡ true
Listed-payment_exists p key [] h = elim h [ ]
Listed-payment_exists p key (x ∷ ps) (inl q) =
    rw (← q, (==_iff p.order_group_number p.order_group_number).1 refl) refl
Listed-payment_exists p key (x ∷ ps) (inr h) = ground (arith, Listed-payment_exists p key ps h)

-- A second confirmation of an order group that has a payment passes the checks and then fails,
-- where Toss answers for the order that it is asked about; the group that was paid, in whatever
-- situation it was, is then in the situation ORDER_PAYMENT_FAILED, and all else is as
-- `IsFailed` states.
pub confirm_payment-again :
    (out : Outside) (req : ConfirmRequest) (w : World) {direct : Bool} {user_id : ℕ} (p : Payment)
    {g : OrderGroup}
    → ((key group amount : ℕ) (toss : TossPayment)
        → out.toss_confirm key group amount ≡ ok toss
        → toss.order_id ≡ group)
    → Listed p w.db.payments
    → p.order_group_number ≡ req.order_group_number
    → w.db.order_groups req.order_group_number ≡ some g
    → check_request out req ≡ ok (direct, user_id)
    → (e : Error) × ((confirm_payment out req w).0 ≡ err e)
      × ((confirm_payment out req w).1.db.order_groups req.order_group_number
          ≡ some (record g { situation = order_payment_failed }))
      × IsFailed req user_id w.db (confirm_payment out req w).1.db
unfolding pay
confirm_payment-again out req w {direct} {user_id} p {g} toss_lem listed same eg checked =
    let (e, fails) = pay_fails in
    let (thrown, f) = confirm_payment-fails out req w checked fails in
    (e, thrown, f.group_failed req.order_group_number ∙ failed_group, f)
  where
    failed_group :
        fail_group req.order_group_number w.db.order_groups req.order_group_number
        ≡ some (record g { situation = order_payment_failed })
    failed_group = rw ((==_iff req.order_group_number req.order_group_number).1 refl, eg) refl

    pay_fails : (e : Error) × (pay out req user_id direct w.db ≡ err e)
    pay_fails =
        elim (Result-cases (out.toss_confirm req.payment_key req.order_group_number req.amount)) [
          | inr (e, refused) ↦ (e, rw refused refl)
          | inl (toss, answer) ↦
              let exists : payment_exists toss.order_id toss.payment_key w.db.payments ≡ true =
                rw (toss_lem _ _ _ toss answer, ← same)
                  (Listed-payment_exists p toss.payment_key w.db.payments listed) in
              let (e, fails) = confirm_tx-paid req user_id direct toss out.now w.db exists in
              (e, rw answer fails)
        ]
