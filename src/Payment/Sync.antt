-- ===== src/Payment/Sync.antt =====
-- `syncPayment` in src/modules/payment/payment.service.ts: a payment is brought to what Toss says
-- of it. Toss and the user in the metadata of its answer are arguments. The receipt and the card of
-- a payment that is there, which no service reads, are left as they are.
use lif_low_backend.Prelude.{
  ℕ, suc, ◌≡◌, refl, ap, false, Option, none, some, List, ◌∷◌, ◌==◌, find,
}
use lif_low_backend.Schema.{
  OrderGroup, Payment, is_success, Db, Result, ok, err, ◌>>=◌, ◌>>◌, or_throw, throw_if, Reason,
  bad_request, p2002, p2003,
}
use lif_low_backend.Membership.{Clock}
use lif_low_backend.Payment.Toss.{
  TossStatus, TossPayment, payment_status, payment_exists, payment_of,
}
use lif_low_backend.Payment.Confirm.{World}
use lif_low_backend.Payment.Refund.{
  find_payment, set_payment, TossCancel, cancel_payment, return_payment,
}
use lif_low_backend.Payment.Refund.Guards.{cancel_payment_refuses, return_payment_refuses}
use lif_low_backend.Payment.Refund.Effects.{find-set_payment}

-- `findByPaymentKey`
abbrev pub find_by_payment_key : ℕ → List Payment → Option Payment
find_by_payment_key key = find λ (p : Payment). p.payment_key == key

-- `savePaymentFromToss`: the user of the metadata, who is not there if it names none.
unfoldable pub save_payment_from_toss : Option ℕ → TossPayment → Db → Result (Payment × Db)
save_payment_from_toss user_id toss db =
    throw_if (payment_exists toss.order_id toss.payment_key db.payments) p2002
    >> (or_throw user_id p2003 >>= λ k. or_throw (db.users k) p2003 >>= λ _.
        or_throw (db.order_groups toss.order_id) p2003 >>= λ _.
        let p = payment_of (suc db.last_id) k toss in
        ok (p, record db { payments = p ∷ db.payments; last_id = suc db.last_id }))

-- A date that Toss does not give stays.
abbrev pub approved_since : Option ℕ → Option ℕ → Option ℕ
approved_since none old = old
approved_since (some a) _ = some a

abbrev pub synced : TossPayment → Payment → Payment
synced toss p = record p {
  status = payment_status toss.status;
  approved_at = approved_since toss.approved_at p.approved_at;
  balance_amount = toss.balance_amount;
}

unfoldable pub sync_payment :
    (ℕ → Result TossPayment) → (TossPayment → Option ℕ) → ℕ → Db → Result (Payment × Db)
sync_payment get_payment user_of key db = get_payment key >>= λ toss.
    elim (find_by_payment_key key db.payments) [
      | none ↦ save_payment_from_toss (user_of toss) toss db
      | some p ↦
          ok (synced toss p, record db { payments = set_payment p.id (synced toss p) db.payments })
    ]

-- If Toss says that a payment is cancelled, a sync of it succeeds and saves that, and all else of
-- the database stays as it is: the order group, the stock, the points and the coupons. After that
-- the service can neither cancel nor return the payment: both requests are refused with a "bad
-- request" that changes nothing, whatever Toss would answer. It is assumed that the payment is
-- found by its key and by its identifier, and its order group is there.
pub sync_payment-no_refund :
    (get_payment : ℕ → Result TossPayment) (user_of : TossPayment → Option ℕ)
    (toss_cancel : TossCancel) (clock : Clock) (key : ℕ) (amount : Option ℕ) (w : World)
    {p : Payment} {g : OrderGroup} {toss : TossPayment}
    → get_payment key ≡ ok toss
    → toss.status ≡ TossStatus.canceled
    → find_by_payment_key key w.db.payments ≡ some p
    → find_payment p.id w.db.payments ≡ some p
    → w.db.order_groups p.order_group_number ≡ some g
    → (db' : Db) × (sync_payment get_payment user_of key w.db ≡ ok (synced toss p, db'))
      × (db' ≡ record w.db { payments = db'.payments })
      × (find_payment p.id db'.payments ≡ some (synced toss p))
      × ((r : Reason) × (cancel_payment toss_cancel clock p.id amount (record w { db = db' })
            ≡ (err (bad_request r), record w { db = db' })))
      × ((r : Reason) × (return_payment toss_cancel clock p.id (record w { db = db' })
            ≡ (err (bad_request r), record w { db = db' })))
unfolding sync_payment payment_status
sync_payment-no_refund get_payment user_of toss_cancel clock key amount w {p} {g} {toss} asked
      cancelled by_key by_id group_found =
    let db' : Db = record w.db { payments = set_payment p.id (synced toss p) w.db.payments } in
    let w' : World = record w { db = db' } in
    let saved : find_payment p.id db'.payments ≡ some (synced toss p) =
      find-set_payment p.id p (synced toss p) w.db.payments by_id refl in
    let unpaid : is_success (payment_status toss.status) ≡ false =
      ap (λ s. is_success (payment_status s)) cancelled in
    (
      db',
      rw (asked, by_key),
      refl,
      saved,
      cancel_payment_refuses toss_cancel clock p.id amount w' saved group_found
          (λ r. cc (r.1, unpaid)),
      return_payment_refuses toss_cancel clock p.id w' saved group_found (λ r. cc (r.1, unpaid)),
    )
