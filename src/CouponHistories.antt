-- ===== src/CouponHistories.antt =====
-- Coupon histories: the operations of
-- src/modules/coupon-history/repositories/coupon-history.repository.ts that change the table. A
-- history stands for `quantity` coupons of one kind that a user holds. A date is a number of
-- milliseconds.
pub mod Held
pub mod Sound
pub mod Issuance
pub mod Usage
pub mod Levels
pub mod Schedule
pub mod Reactivation
pub mod Administration
pub mod Steps
use lif_low_backend.Prelude.{
  ℕ, suc, ◌+◌, ◌*◌, Bool, true, false, not, ◌&&◌, ◌||◌, Option, none, some, List, [], ◌∷◌, leb,
  ◌==◌, if◌then◌else◌, get_or, is_some_of, filter, length, contains, find, any,
}
use lif_low_backend.Schema.{
  CouponHistory, CouponHistoryStatus, issued, is_issued, is_expired, Result, ◌>>=◌, or_throw, ok,
  not_found, history_not_found, p2025,
}
use lif_low_backend.Coupons.{Histories, Use, mark_used, set_history}

abbrev pub is_of : ℕ → CouponHistory → Bool
is_of coupon_id h = is_some_of coupon_id h.coupon_id

-- When a coupon may be used, as far as it is said.
pub record Period : Type 0 where
  pub start_date : Option ℕ
  pub end_date : Option ℕ

-- What a new history is made of, next to its coupon and its user.
pub record Issue : Type 0 where
  pub quantity : ℕ
  pub now : ℕ
  pub period : Period
  pub payment_id : Option ℕ

abbrev pub issued_history : ℕ → ℕ → ℕ → Issue → CouponHistory
issued_history id coupon_id user_id i = record {
  id = id;
  coupon_id = some coupon_id;
  user_id = user_id;
  quantity = i.quantity;
  order_id = none;
  status = CouponHistoryStatus.issued;
  start_date = i.period.start_date;
  end_date = i.period.end_date;
  payment_id = i.payment_id;
  issued_at = i.now;
  used_at = none;
  expired_at = none;
  cancelled_at = none;
  discount_applied_amount = none;
  purchase_amount_at_use = none;
}

-- `createMany`, for one coupon and several users.
unfoldable pub create_many : ℕ → Issue → List ℕ → Histories → Histories
create_many coupon_id i [] s = s
create_many coupon_id i (u ∷ us) (hs, last) =
    create_many coupon_id i us (issued_history (suc last) coupon_id u i ∷ hs, suc last)

abbrev pub is_new : ℕ → List ℕ → ℕ → CouponHistory → Bool
is_new coupon_id user_ids now h =
    is_of coupon_id h && (contains h.user_id user_ids && h.issued_at == now)

-- What `createBulk` makes a history of: one coupon, for no payment.
abbrev pub one_issue : Period → ℕ → Issue
one_issue period now = record { quantity = 1; now = now; period = period; payment_id = none }

-- `createBulk`, with the number of histories that it returns.
unfoldable pub create_bulk : ℕ → List ℕ → Period → ℕ → Histories → ℕ × Histories
create_bulk coupon_id user_ids period now s =
    let created = create_many coupon_id (one_issue period now) user_ids s in
    (length (filter (is_new coupon_id user_ids now) created.0), created)

abbrev thirty_days : ℕ
thirty_days = 30 * 24 * 60 * 60 * 1000

-- The period of `createWithQuantity`: from now on, and for thirty days, unless it is given.
abbrev pub with_defaults : ℕ → Period → Period
with_defaults now period =
    let start = get_or period.start_date now in
    record {
      start_date = some start;
      end_date = some (get_or period.end_date (start + thirty_days));
    }

-- `createWithQuantity`: one history, whatever its quantity.
unfoldable pub create_with_quantity : ℕ → ℕ → Issue → Histories → Histories
create_with_quantity coupon_id user_id i (hs, last) = (
  issued_history (suc last) coupon_id user_id (record i { period = with_defaults i.now i.period })
      ∷ hs,
  suc last,
)

-- `findOne`
unfoldable pub find_one : ℕ → List CouponHistory → Result CouponHistory
find_one id hs =
    or_throw (find (λ (h : CouponHistory). h.id == id) hs) (not_found history_not_found)

-- `update({ where: { id } })`, which fails if the row is gone.
unfoldable pub update_one :
    ℕ → (CouponHistory → CouponHistory) → List CouponHistory → Result (List CouponHistory)
update_one id f hs =
    or_throw (find (λ (h : CouponHistory). h.id == id) hs) p2025 >>= λ _. ok (set_history id f hs)

abbrev pub mark_as_used : ℕ → Use → List CouponHistory → Result (List CouponHistory)
mark_as_used id u = update_one id (mark_used u)

abbrev pub mark_cancelled : ℕ → CouponHistory → CouponHistory
mark_cancelled now h = record h { status = CouponHistoryStatus.cancelled; cancelled_at = some now }

abbrev pub mark_as_cancelled : ℕ → ℕ → List CouponHistory → Result (List CouponHistory)
mark_as_cancelled id now = update_one id (mark_cancelled now)

-- `updateMany`, and the rows that it leaves.
unfoldable pub update_where :
    (CouponHistory → Bool)
    → (CouponHistory → CouponHistory)
    → List CouponHistory
    → List CouponHistory
update_where p f [] = []
update_where p f (h ∷ hs) = (if p h then f h else h) ∷ update_where p f hs

abbrev pub with_status : CouponHistoryStatus → CouponHistory → CouponHistory
with_status s h = record h { status = s }

abbrev pub is_issued_of : ℕ → CouponHistory → Bool
is_issued_of coupon_id h = is_of coupon_id h && is_issued h.status

-- `expireAllByCouponId`, with the number of histories that it changes.
unfoldable pub expire_all_by_coupon_id : ℕ → List CouponHistory → ℕ × List CouponHistory
expire_all_by_coupon_id coupon_id hs = (
  length (filter (is_issued_of coupon_id) hs),
  update_where (is_issued_of coupon_id) (with_status CouponHistoryStatus.expired) hs,
)

-- A comparison with a date that may be missing: SQL finds none such.
abbrev pub is_at_most : ℕ → Option ℕ → Bool
is_at_most now none = false
is_at_most now (some d) = leb d now

abbrev pub is_at_least : ℕ → Option ℕ → Bool
is_at_least now none = false
is_at_least now (some d) = leb now d

abbrev is_none : Option ℕ → Bool
is_none none = true
is_none (some _) = false

abbrev pub is_running : ℕ → CouponHistory → Bool
is_running now h = is_at_most now h.start_date && (is_none h.end_date || is_at_least now h.end_date)

-- `reactivateExpiredByCouponId`
unfoldable pub reactivate_expired_by_coupon_id : ℕ → ℕ → List CouponHistory → List CouponHistory
reactivate_expired_by_coupon_id coupon_id now =
    update_where (λ h. is_of coupon_id h && (is_expired h.status && is_running now h))
      (with_status CouponHistoryStatus.issued)

-- `expireOldCoupons`
unfoldable pub expire_old_coupons : ℕ → List CouponHistory → List CouponHistory
expire_old_coupons now =
    update_where (λ h. is_issued h.status && is_at_most now h.expired_at)
      (with_status CouponHistoryStatus.expired)

-- `deleteByPaymentId`
unfoldable pub delete_by_payment_id : ℕ → List CouponHistory → List CouponHistory
delete_by_payment_id payment_id =
    filter λ h. not (is_some_of payment_id h.payment_id && is_issued h.status)

-- `existsByUserAndCoupon`: a history in any status.
unfoldable pub exists_by_user_and_coupon : ℕ → ℕ → List CouponHistory → Bool
exists_by_user_and_coupon user_id coupon_id = any λ h. h.user_id == user_id && is_of coupon_id h
