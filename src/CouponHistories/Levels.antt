-- ===== src/CouponHistories/Levels.antt =====
-- The coupons that a user gets with a membership level: `issueBirthdayCoupon`,
-- `issueFreeShipping`, `issueShoppingSupport`, `issueSpecialBenefit` and `issueAfterUpdate` in
-- src/modules/coupon-history/coupon-history.service.ts. An answer is the number of histories that
-- it counts; a coupon that is missing or inactive is no error.
pub mod Closure
pub mod Special
use text.Mathlib.Text.{◌==◌ as str_eq}
use lif_low_backend.Prelude.{
  ℕ, ◌+◌, String, Bool, true, false, not, Option, none, some, List, find, if◌then◌else◌, get_or,
  ◌==◌,
}
use lif_low_backend.Schema.{User, Table, Coupon}
use lif_low_backend.Membership.{is_truthy}
use lif_low_backend.Coupons.{Histories}
use lif_low_backend.CouponHistories.{Issue, create_with_quantity, exists_by_user_and_coupon}
use lif_low_backend.CouponHistories.Issuance.{no_period}

-- `FREE_SHIPPING_COUNT_BY_LEVEL`, with 0 for a level that it does not list.
unfoldable pub free_shipping_count : String → ℕ
free_shipping_count level =
    if str_eq level "LV2. 새싹"
    then 1
    else if str_eq level "LV3. 열매"
    then 2
    else if str_eq level "LV4. 나무"
    then 3
    else if str_eq level "LV5. 정원"
    then 5
    else 0

-- `SHOPPING_SUPPORT_CODES`
unfoldable pub shopping_support_code : String → Option String
shopping_support_code level =
    if str_eq level "LV2. 새싹"
    then some "SHOPPING_SUPPORT_LV2"
    else if str_eq level "LV3. 열매"
    then some "SHOPPING_SUPPORT_LV3"
    else if str_eq level "LV4. 나무"
    then some "SHOPPING_SUPPORT_LV4"
    else if str_eq level "LV5. 정원"
    then some "SHOPPING_SUPPORT_LV5"
    else none

-- `SHOPPING_SUPPORT_COUNT_BY_LEVEL`
unfoldable pub shopping_support_count : String → ℕ
shopping_support_count level =
    if str_eq level "LV2. 새싹"
    then 1
    else if str_eq level "LV3. 열매"
    then 2
    else if str_eq level "LV4. 나무"
    then 3
    else if str_eq level "LV5. 정원"
    then 3
    else 0

-- Whom a call is for, on account of which payment, with which membership, and when.
pub record Occasion : Type 0 where
  pub user_id : ℕ
  pub payment_id : Option ℕ
  pub membership : Option String
  pub now : ℕ

-- The level of the membership that was passed, or else of the user.
unfoldable pub level_of : Table User → Occasion → Option String
level_of users o = elim o.membership [
  | some name ↦ some name
  | none ↦ elim (users o.user_id) [ none ↦ none | some u ↦ u.membership_level ]
]

-- `couponsService.findByCode`
abbrev pub find_by_code : String → List Coupon → Option Coupon
find_by_code code = find λ (c : Coupon). str_eq c.code code

abbrev pub issue_of : ℕ → Occasion → Issue
issue_of quantity o = record {
  quantity = quantity;
  now = o.now;
  period = no_period;
  payment_id = o.payment_id;
}

-- The common end of these calls: some coupons of one code, if it is active.
unfoldable pub issue_of_code : List Coupon → String → ℕ → Occasion → Histories → ℕ × Histories
issue_of_code coupons code quantity o s = elim (find_by_code code coupons) [
  | none ↦ (0, s)
  | some c ↦
      if c.is_active
      then (1, create_with_quantity c.id o.user_id (issue_of quantity o) s)
      else (0, s)
]

abbrev pub birthday : ℕ → ℕ → Occasion
birthday user_id now = record { user_id = user_id; payment_id = none; membership = none; now = now }

abbrev pub issue_birthday_coupon : List Coupon → ℕ → ℕ → Histories → ℕ × Histories
issue_birthday_coupon coupons user_id now =
    issue_of_code coupons "BIRTHDAY" 1 (birthday user_id now)

unfoldable pub issue_free_shipping : Table User → List Coupon → Occasion → Histories → ℕ × Histories
issue_free_shipping users coupons o s = elim (level_of users o) [
  | none ↦ (0, s)
  | some level ↦
      let count = free_shipping_count level in
      if count == 0 then (0, s) else issue_of_code coupons "FREE_SHIPPING" count o s
]

unfoldable pub issue_shopping_support :
    Table User → List Coupon → Occasion → Histories → ℕ × Histories
issue_shopping_support users coupons o s = elim (level_of users o) [
  | none ↦ (0, s)
  | some level ↦ elim (shopping_support_code level) [
    | none ↦ (0, s)
    | some code ↦
        let count = shopping_support_count level in
        if count == 0 then (0, s) else issue_of_code coupons code count o s
  ]
]

abbrev pub is_lv5 : Option String → Bool
is_lv5 none = false
is_lv5 (some level) = str_eq level "LV5. 정원"

unfoldable pub issue_special_benefit :
    Table User → List Coupon → Occasion → Histories → ℕ × Histories
issue_special_benefit users coupons o (hs, last) =
    if not (is_lv5 (level_of users o))
    then (0, (hs, last))
    else elim (find_by_code "SPECIAL_BENEFIT" coupons) [
      | none ↦ (0, (hs, last))
      | some c ↦
          if not c.is_active
          then (0, (hs, last))
          else if exists_by_user_and_coupon o.user_id c.id hs
          then (0, (hs, last))
          else (1, create_with_quantity c.id o.user_id (issue_of 1 o) (hs, last))
    ]

-- The three calls, one after the other: they are started together and wait for each other's end.
unfoldable pub issue_after_update : Table User → List Coupon → Occasion → Histories → ℕ × Histories
issue_after_update users coupons o s =
    let free = issue_free_shipping users coupons o s in
    let support = issue_shopping_support users coupons o free.1 in
    let special = issue_special_benefit users coupons o support.1 in
    (free.0 + support.0 + special.0, special.1)
