-- ===== src/CouponHistories/Steps.antt =====
-- The calls and the scheduled work that change the table of coupon histories, as the steps of one
-- relation on the table and the last identifier that was handed out. `paying` is one use of a
-- coupon in a payment.
pub mod Closed
pub mod Wallet
pub mod Numbers
pub mod Refines
use lif_low_backend.Prelude.{ℕ, String, List, [], ◌∷◌, ◌≡◌}
use lif_low_backend.Schema.{User, Table, Coupon, CouponHistory, ok}
use lif_low_backend.Coupons.{Histories, Use, use_history}
use lif_low_backend.CouponHistories.{
  Period, expire_all_by_coupon_id, reactivate_expired_by_coupon_id, expire_old_coupons,
  delete_by_payment_id,
}
use lif_low_backend.CouponHistories.Issuance.{issue_coupon, issue_coupon_to_users_by_target_grades}
use lif_low_backend.CouponHistories.Usage.{UseCoupon, use_coupon, cancel_coupon}
use lif_low_backend.CouponHistories.Levels.{Occasion, issue_birthday_coupon, issue_after_update}
use lif_low_backend.CouponHistories.Schedule.{
  issue_auto_issue_coupons_to_target_grades, expire_coupon_histories,
}

pub data Step : Histories → Histories → Type 0 where
  issuing :
      (k : ℕ) (us : List ℕ) (coupons : List Coupon) (now n : ℕ) {s s' : Histories}
      → issue_coupon k us coupons now s ≡ ok (n, s')
      → Step s s'
  issuing_by_grades :
      (k : ℕ) (grades : List String) (period : Period) (ids : List ℕ) (users : Table User)
      (coupons : List Coupon) (now n : ℕ) {s s' : Histories}
      → issue_coupon_to_users_by_target_grades k grades period ids users coupons now s ≡ ok (n, s')
      → Step s s'
  paying : (k q : ℕ) (u : Use) {s : Histories} → Step s (use_history k q u s)
  using :
      (share : ℕ → ℕ → ℕ) (coupons : List Coupon) (now d r : ℕ) (u : UseCoupon)
      {hs hs' : List CouponHistory} {last : ℕ}
      → use_coupon share coupons now u hs ≡ ok (d, r, hs')
      → Step (hs, last) (hs', last)
  cancelling :
      (id now : ℕ) {hs hs' : List CouponHistory} {last : ℕ}
      → cancel_coupon id now hs ≡ ok hs'
      → Step (hs, last) (hs', last)
  on_birthday :
      (coupons : List Coupon) (user now : ℕ) {s : Histories}
      → Step s (issue_birthday_coupon coupons user now s).1
  after_update :
      (users : Table User) (coupons : List Coupon) (o : Occasion) {s : Histories}
      → Step s (issue_after_update users coupons o s).1
  monthly :
      (ids : List ℕ) (users : Table User) (month : Period) (now : ℕ) (coupons : List Coupon)
      {s : Histories}
      → Step s (issue_auto_issue_coupons_to_target_grades ids users month now coupons s).histories
  nightly :
      (today : ℕ) (coupons : List Coupon) {hs : List CouponHistory} {last : ℕ}
      → Step (hs, last) ((expire_coupon_histories today coupons hs).1.1, last)
  expiring :
      (k : ℕ) {hs : List CouponHistory} {last : ℕ}
      → Step (hs, last) ((expire_all_by_coupon_id k hs).1, last)
  reactivating :
      (k now : ℕ) {hs : List CouponHistory} {last : ℕ}
      → Step (hs, last) (reactivate_expired_by_coupon_id k now hs, last)
  expiring_old :
      (now : ℕ) {hs : List CouponHistory} {last : ℕ}
      → Step (hs, last) (expire_old_coupons now hs, last)
  deleting :
      (payment : ℕ) {hs : List CouponHistory} {last : ℕ}
      → Step (hs, last) (delete_by_payment_id payment hs, last)

-- Any number of steps.
pub data Run : Histories → Histories → Type 0 where
  stay : {s : Histories} → Run s s
  step : {s t u : Histories} → Step s t → Run t u → Run s u

-- The days on which the nightly work is done in a run.
unfoldable pub night_of : {s s' : Histories} → Step s s' → List ℕ → List ℕ
night_of (nightly today coupons) days = today ∷ days
night_of (issuing k us coupons now n h) days = days
night_of (issuing_by_grades k grades period ids users coupons now n h) days = days
night_of (paying k q u) days = days
night_of (using share coupons now d r u h) days = days
night_of (cancelling id now h) days = days
night_of (on_birthday coupons user now) days = days
night_of (after_update users coupons o) days = days
night_of (monthly ids users month now coupons) days = days
night_of (expiring k) days = days
night_of (reactivating k now) days = days
night_of (expiring_old now) days = days
night_of (deleting payment) days = days

unfoldable pub nights : {s s' : Histories} → Run s s' → List ℕ
nights stay = []
nights (step a rest) = night_of a (nights rest)
