-- ===== src/Payment/Confirm/Failure.antt =====
-- What a confirmation that fails changes: the checks, and the `catch` of `confirmPayment`.
use lif_low_backend.Prelude.{
  ℕ, suc, ◌≤◌, ltb, ◌≡◌, ◌⊎◌, refl, Bool, true, false, some, ◌∷◌, arith, ◌==◌, ==_iff, ap, ◌∙◌,
  Bool-cases, Option-cases, inl, inr, if◌then◌else◌,
}
use mathlib.Core.Option
use lif_low_backend.Schema.{
  OrderGroup, order_payment_failed, Payment, failed, Db, ok, err, Error, Reason, bad_request,
  token_outdated_or_invalid, minimum_payment_amount,
}
use lif_low_backend.Carts.{remove_items}
use lif_low_backend.Carts.Changes.{IsCartChange, remove_items-IsCartChange}
use lif_low_backend.Payment.Toss.{payment_exists}
use lif_low_backend.Payment.Confirm.{
  TokenPayload, ConfirmRequest, World, Outside, minimum_amount, check_request, fail_group,
  failed_payment, save_failed_payment, after_failure, pay, confirm_payment,
}

-- What the two databases share after a failure: all but carts, their items, the situation of the
-- order group, and the record of the failed payment.
pub record IsFailed (req : ConfirmRequest) (user_id : ℕ) (db db' : Db) : Type 0 where
  pub group_failed :
      (j : ℕ)
      → db'.order_groups j ≡ (
          if j == req.order_group_number
          then Option.map
              (λ (g : OrderGroup). record g { situation = order_payment_failed })
              (db.order_groups j)
          else db.order_groups j)
  pub users : db'.users ≡ db.users
  pub user_memberships : db'.user_memberships ≡ db.user_memberships
  pub products : db'.products ≡ db.products
  pub orders : db'.orders ≡ db.orders
  pub points : db'.points ≡ db.points
  pub coupon_histories : db'.coupon_histories ≡ db.coupon_histories
  pub payments :
      (db'.payments ≡ db.payments)
      ⊎ ((p : Payment) × (db'.payments ≡ p ∷ db.payments)
          × (p.status ≡ failed)
          × (p.order_group_number ≡ req.order_group_number)
          × (p.user_id ≡ user_id))

save_failed_payment-IsFailed :
    (req : ConfirmRequest) (user_id : ℕ) (db db1 : Db)
    → IsFailed req user_id db db1
    → db1.payments ≡ db.payments
    → db1.last_id ≡ db.last_id
    → IsFailed req user_id db (save_failed_payment req user_id db1)
unfolding save_failed_payment
save_failed_payment-IsFailed req user_id db db1 f p l =
    elim (Bool-cases (payment_exists req.order_group_number req.payment_key db1.payments)) [
      | inl e ↦ rw e f
      | inr e ↦ elim (Option-cases (db1.order_groups req.order_group_number)) [
        | inl no_group ↦ rw (e, no_group) f
        | inr (_, eg) ↦ elim (Option-cases (db1.users user_id)) [
          | inl no_user ↦ rw (e, eg, no_user) f
          | inr (_, eu) ↦
              rw (e, eg, eu)
                record {
                  group_failed = f.group_failed;
                  users = f.users;
                  user_memberships = f.user_memberships;
                  products = f.products;
                  orders = f.orders;
                  points = f.points;
                  coupon_histories = f.coupon_histories;
                  payments =
                      inr
                        (failed_payment (suc db1.last_id) user_id req, rw p refl, refl, refl, refl);
                }
        ]
      ]
    ]

emptied-IsFailed :
    (req : ConfirmRequest) (user_id : ℕ) (db emptied : Db)
    → IsCartChange db emptied
    → IsFailed req user_id db (
        save_failed_payment req user_id (record emptied {
          order_groups = fail_group req.order_group_number emptied.order_groups;
        }))
emptied-IsFailed req user_id db emptied (items, carts, e) =
    save_failed_payment-IsFailed req user_id db _
      (record {
        group_failed = λ j. rw e refl;
        users = rw e refl;
        user_memberships = rw e refl;
        products = rw e refl;
        orders = rw e refl;
        points = rw e refl;
        coupon_histories = rw e refl;
        payments = inl (rw e refl);
      })
      (rw e refl) (rw e refl)

after_failure-IsFailed :
    (req : ConfirmRequest) (user_id : ℕ) (direct : Bool) (w : World)
    → IsFailed req user_id w.db (after_failure req user_id direct w).db
unfolding after_failure
after_failure-IsFailed req user_id true w =
    emptied-IsFailed req user_id w.db w.db (w.db.cart_items, w.db.carts, refl)
after_failure-IsFailed req user_id false w =
    emptied-IsFailed req user_id w.db (remove_items req.cart_items w.db)
      (remove_items-IsCartChange req.cart_items w.db)

-- What the checks ask of a request: a token that verifies and names the order group and the user
-- of the request, and the minimum amount.
pub record IsAuthorized (out : Outside) (req : ConfirmRequest) : Type 0 where
  pub token : TokenPayload
  pub verified : out.verify_token req.payment_token ≡ some token
  pub same_group : token.order_group_number ≡ req.order_group_number
  pub same_user : req.user_id ≡ some token.user_id
  pub enough : minimum_amount ≤ req.amount

authorized :
    (out : Outside) (req : ConfirmRequest)
    → IsAuthorized out req ⊎ ((r : Reason) × (check_request out req ≡ err (bad_request r)))
unfolding check_request
authorized out req = elim (Option-cases (out.verify_token req.payment_token)) [
  | inl e ↦ inr (token_outdated_or_invalid, rw e refl)
  | inr (token, e) ↦ elim (Bool-cases (token.order_group_number == req.order_group_number)) [
    | inr other ↦ inr (token_outdated_or_invalid, rw (e, other) refl)
    | inl group ↦ elim (Option-cases req.user_id) [
      | inl nobody ↦ inr (token_outdated_or_invalid, rw (e, group, nobody) refl)
      | inr (user_id, eu) ↦ elim (Bool-cases (user_id == token.user_id)) [
        | inr other ↦ inr (token_outdated_or_invalid, rw (e, group, eu, other) refl)
        | inl same ↦ elim (Bool-cases (ltb req.amount minimum_amount)) [
          | inl less ↦ inr (minimum_payment_amount, rw (e, group, eu, same, less) refl)
          | inr enough ↦ inl record {
            token = token;
            verified = e;
            same_group = (==_iff token.order_group_number req.order_group_number).0 group;
            same_user = eu ∙ ap some ((==_iff user_id token.user_id).0 same);
            enough = ground arith;
          }
        ]
      ]
    ]
  ]
]

-- A request without a verified token for its order group and its user, or below the minimum
-- amount, is refused with a "bad request", and the whole world stays as it was.
pub confirm_payment_refuses :
    (out : Outside) (req : ConfirmRequest) (w : World)
    → ¬ IsAuthorized out req
    → (r : Reason) × (confirm_payment out req w ≡ (err (bad_request r), w))
unfolding confirm_payment
confirm_payment_refuses out req w no_right = elim (authorized out req) [
  | inl right ↦ absurd (no_right right)
  | inr (r, e) ↦ (r, rw (e, confirm_payment) refl)
]

-- A payment that fails after the checks, by Toss or by the transaction: the exception is thrown
-- on, no user, stock, order, point record or coupon is changed, and the order group that the
-- request names is in the situation ORDER_PAYMENT_FAILED, in whatever situation it was before,
-- and no other group changes. At most one payment is added, a failed one for that group and user.
pub confirm_payment-fails :
    (out : Outside) (req : ConfirmRequest) (w : World) {direct : Bool} {user_id : ℕ} {e : Error}
    → check_request out req ≡ ok (direct, user_id)
    → pay out req user_id direct w.db ≡ err e
    → ((confirm_payment out req w).0 ≡ err e)
      × IsFailed req user_id w.db (confirm_payment out req w).1.db
unfolding confirm_payment
confirm_payment-fails out req w {direct} {user_id} c p =
    rw (c, p, confirm_payment) (refl, after_failure-IsFailed req user_id direct w)
