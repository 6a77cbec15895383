-- ===== src/CouponHistories/Issuance.antt =====
-- The issuing of coupons by an administrator: `issueCoupon` and `issueCouponToUsersByTargetGrades`
-- in src/modules/coupon-history/coupon-history.service.ts. An answer is the number of histories
-- that it counts.
pub mod Laws
use text.Mathlib.Text.{◌==◌ as str_eq}
use lif_low_backend.Prelude.{
  ℕ, String, Bool, true, false, not, ◌&&◌, ◌||◌, Option, none, some, List, [], ◌∷◌, ◌==◌,
  if◌then◌else◌, filter, find, any, contains, is_empty,
}
use lif_low_backend.Schema.{
  User, Table, Coupon, CouponHistory, Result, ok, ◌>>=◌, ◌>>◌, or_throw, throw_if, not_found,
  bad_request, coupon_not_found, coupon_inactive, coupon_already_issued,
}
use lif_low_backend.Coupons.{Histories}
use lif_low_backend.CouponHistories.{is_issued_of, Period, create_bulk}

-- `couponsService.findOne`
abbrev pub find_coupon : ℕ → List Coupon → Option Coupon
find_coupon k = find λ (c : Coupon). c.id == k

unfoldable pub validate_coupon_for_issuance : ℕ → List Coupon → Result Coupon
validate_coupon_for_issuance k coupons =
    or_throw (find_coupon k coupons) (not_found coupon_not_found) >>= λ c.
    throw_if (not c.is_active) (bad_request coupon_inactive) >> ok c

-- `findActiveHistoriesByUserIds`
abbrev pub is_duplicate : ℕ → List ℕ → CouponHistory → Bool
is_duplicate k user_ids h = is_issued_of k h && contains h.user_id user_ids

unfoldable pub check_duplicate_issuance : ℕ → List ℕ → List CouponHistory → Result (Unit {0})
check_duplicate_issuance k user_ids hs =
    throw_if (any (is_duplicate k user_ids) hs) (bad_request coupon_already_issued)

abbrev pub no_period : Period
no_period = record { start_date = none; end_date = none }

unfoldable pub issue_coupon : ℕ → List ℕ → List Coupon → ℕ → Histories → Result (ℕ × Histories)
issue_coupon k user_ids coupons now (hs, last) = validate_coupon_for_issuance k coupons >>= λ _.
    check_duplicate_issuance k user_ids hs >> ok (create_bulk k user_ids no_period now (hs, last))

abbrev pub includes : String → List String → Bool
includes s = any (str_eq s)

abbrev pub has_level_in : List String → Option User → Bool
has_level_in levels none = false
has_level_in levels (some u) = elim u.membership_level [
  | none ↦ false
  | some level ↦ includes level levels
]

-- `findUserIdsByMembershipLevels`, on the identifiers of the table in its order: all of them if
-- there are no levels to look for.
unfoldable pub users_at : List String → List ℕ → Table User → List ℕ
users_at levels ids users =
    if is_empty levels then ids else filter (λ u. has_level_in levels (users u)) ids

-- The call without target grades: to all users, and no error if the coupon cannot be issued.
unfoldable pub issue_to_all : ℕ → List ℕ → Period → List Coupon → ℕ → Histories → ℕ × Histories
issue_to_all k user_ids period coupons now s = elim (find_coupon k coupons) [
  | none ↦ (0, s)
  | some c ↦ if c.is_active then create_bulk k user_ids period now s else (0, s)
]

unfoldable pub issue_coupon_to_users_by_target_grades :
    (k : ℕ) (target_grades : List String) (period : Period) (ids : List ℕ) (users : Table User)
    → List Coupon
    → ℕ
    → Histories
    → Result (ℕ × Histories)
issue_coupon_to_users_by_target_grades k target_grades period ids users coupons now s =
    let user_ids = users_at target_grades ids users in
    if is_empty user_ids
    then ok (0, s)
    else if is_empty target_grades
    then ok (issue_to_all k user_ids period coupons now s)
    else (validate_coupon_for_issuance k coupons >>= λ _. ok (create_bulk k user_ids period now s))
