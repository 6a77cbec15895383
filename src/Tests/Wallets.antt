-- ===== src/Tests/Wallets.antt =====
-- The theorems on coupon histories, tried on a few rows.
use lif_low_backend.Prelude.{
  ℕ, ◌+◌, ◌≡◌, ◌≢◌, ◌⊎◌, refl, true, false, none, some, List, [], ◌∷◌, arith, ◌==◌, ◌&&◌, inl, inr,
  filter, length, Listed, contains, ◌++◌, All, find, Option,
}
use lif_low_backend.Schema.{
  Coupon, CouponType, CouponHistory, CouponHistoryStatus, User, Table, ok, put,
}
use lif_low_backend.Coupons.{Histories, use_history}
use lif_low_backend.Coupons.Used.{held}
use lif_low_backend.CouponHistories.{
  Period, create_many, create_bulk, create_with_quantity, reactivate_expired_by_coupon_id,
  expire_all_by_coupon_id, exists_by_user_and_coupon,
}
use lif_low_backend.CouponHistories.Held.{given}
use lif_low_backend.CouponHistories.Sound.{IsFresh}
use lif_low_backend.CouponHistories.Issuance.{
  issue_coupon, users_at, issue_coupon_to_users_by_target_grades, validate_coupon_for_issuance,
  check_duplicate_issuance,
}
use lif_low_backend.CouponHistories.Issuance.Laws.{IsIssuedTo, issue_coupon-held}
use lif_low_backend.CouponHistories.Usage.{UseCoupon, use_coupon}
use lif_low_backend.CouponHistories.Usage.Laws.{use_coupon_fails}
use lif_low_backend.CouponHistories.Levels.{
  Occasion, level_of, free_shipping_count, issue_special_benefit,
}
use lif_low_backend.CouponHistories.Levels.Special.{issue_special_benefit-again}
use lif_low_backend.CouponHistories.Schedule.{is_over, issue_auto_issue_coupons_to_target_grades}
use lif_low_backend.CouponHistories.Schedule.Monthly.{
  is_meant, held-issue_auto_issue_coupons_to_target_grades,
}
use lif_low_backend.CouponHistories.Steps.{Run, stay, step, paying, expiring, nights}
use lif_low_backend.CouponHistories.Reactivation.{reactivate-expire}
use lif_low_backend.CouponHistories.Steps.Closed.{Run-Keeps}
use lif_low_backend.CouponHistories.Steps.Wallet.{wallet_of, Moves, events_of}
use lif_low_backend.CouponHistories.Steps.Refines.{Run-Moves}
use lif_low_backend.CouponHistories.Administration.{
  UpdateCoupon, check_discount, check_update, set_coupon, issue_on_update, update_coupon,
  update_coupon-held,
}
use lif_low_backend.Tests.{user, coupon, empty, value_or}
use lif_low_backend.Tests.Parts.{history, histories, one_use}

abbrev nobody : Histories
nobody = ([], 100)

abbrev coupons : List Coupon
coupons = coupon ∷ []

abbrev issued_to_two : ℕ × Histories
issued_to_two = value_or (0, nobody) (issue_coupon 5 (1 ∷ 2 ∷ []) coupons 7 nobody)

two_issued : issue_coupon 5 (1 ∷ 2 ∷ []) coupons 7 nobody ≡ ok (issued_to_two.0, issued_to_two.1)
unfolding issue_coupon validate_coupon_for_issuance check_duplicate_issuance create_bulk create_many
two_issued = refl

issue_coupon-held_example :
    ((v : ℕ) → contains v (1 ∷ 2 ∷ []) ≡ true → held 5 v [] ≡ 0)
    × ((j v : ℕ) → held j v issued_to_two.1.0 ≡ held j v [] + given j v 5 1 (1 ∷ 2 ∷ []))
    × ((new : List CouponHistory) × (issued_to_two.1.0 ≡ new ++ [])
        × All (IsIssuedTo 5 (1 ∷ 2 ∷ [])) new)
issue_coupon-held_example = issue_coupon-held 5 (1 ∷ 2 ∷ []) coupons 7 nobody two_issued

abbrev whole : ℕ → ℕ → ℕ
whole purchase rate = purchase

abbrev use_two : UseCoupon
use_two = record { history_id = 2; order_id = 9; purchase_amount = 10000 }

use_coupon_fails_example : use_coupon whole coupons 6 use_two histories ≢ ok (1000, 9000, [])
use_coupon_fails_example = use_coupon_fails whole coupons 6 use_two histories (1000, 9000, [])

abbrev used_one : CouponHistory
used_one = record (history 3 1) { status = CouponHistoryStatus.used }

abbrev table : Histories
table = (used_one ∷ histories, 100)

table-IsFresh : IsFresh table
table-IsFresh = (
  (
    ((λ q. omega (arith, q)), ((λ q. omega (arith, q)), tt)),
    (((λ q. omega (arith, q)), tt), (tt, tt)),
  ),
  (omega arith, (omega arith, (omega arith, tt))),
)

abbrev after_use : Histories
after_use = use_history 5 2 one_use table

abbrev after_expiry : Histories
after_expiry = ((expire_all_by_coupon_id 5 after_use.0).1, after_use.1)

run : Run table after_expiry
run = step (paying 5 2 one_use) (step (expiring 5) stay)

Run-Keeps_example :
    Listed used_one after_expiry.0 ⊎ ((t : ℕ) × Listed t (nights run) × (is_over t used_one ≡ true))
Run-Keeps_example = Run-Keeps table-IsFresh run used_one (inl refl) refl

Run-Moves_example : Moves (events_of run) (wallet_of table) (wallet_of after_expiry)
Run-Moves_example = Run-Moves run table-IsFresh

abbrev lv5 : User
lv5 = record user { membership_level = some "LV5. 정원" }

abbrev special : Coupon
special = record coupon { id = 6; code = "SPECIAL_BENEFIT" }

abbrev shipping : Coupon
shipping = record coupon { id = 7; code = "FREE_SHIPPING"; coupon_type = CouponType.free_shipping }

abbrev automatic : Coupon
automatic = record coupon { is_auto_issue = true; target_grades = "LV5. 정원" ∷ [] }

abbrev level_coupons : List Coupon
level_coupons = special ∷ shipping ∷ automatic ∷ []

abbrev people : Table User
people = put 1 lv5 empty

abbrev bought : Occasion
bought = record { user_id = 1; payment_id = some 4; membership = none; now = 50 }

special_once : (issue_special_benefit people level_coupons bought nobody).0 ≡ 1
unfolding issue_special_benefit exists_by_user_and_coupon level_of
special_once = refl

abbrev the_benefit : CouponHistory
the_benefit = value_of (
    find (λ (h : CouponHistory). h.user_id == 1)
      (issue_special_benefit people level_coupons bought nobody).1.0)
  where
    value_of : Option CouponHistory → CouponHistory
    value_of none = used_one
    value_of (some h) = h

-- The benefit was used since, and other coupons were issued.
abbrev spent_benefit : CouponHistory
spent_benefit = record the_benefit { status = CouponHistoryStatus.used }

issue_special_benefit-again_example :
    issue_special_benefit people level_coupons bought (used_one ∷ spent_benefit ∷ [], 300)
    ≡ (0, (used_one ∷ spent_benefit ∷ [], 300))
unfolding issue_special_benefit exists_by_user_and_coupon level_of create_with_quantity
issue_special_benefit-again_example =
    issue_special_benefit-again people people level_coupons bought bought nobody
      (used_one ∷ spent_benefit ∷ [], 300) the_benefit spent_benefit (tt, tt) refl special_once
      (inl refl) refl (inr (inl refl)) refl refl

abbrev running : List CouponHistory
running = record (history 1 4) { start_date = some 0; end_date = some 1000 } ∷ used_one ∷ []

reactivate-expire_example :
    reactivate_expired_by_coupon_id 5 500 (expire_all_by_coupon_id 5 running).1 ≡ running
reactivate-expire_example = reactivate-expire 5 500 running ((refl, refl), ((refl, refl), tt))

lv5_shipping : (free_shipping_count "LV5. 정원" == 0) ≡ false
unfolding free_shipping_count
lv5_shipping = refl

bought_level : level_of people bought ≡ some "LV5. 정원"
unfolding level_of
bought_level = refl

abbrev january : Period
january = record { start_date = some 0; end_date = some 1000 }

held-issue_auto_issue_coupons_to_target_grades_example :
    held 5 1
      (issue_auto_issue_coupons_to_target_grades
        (1 ∷ 2 ∷ [])
        people
        january
        5
        level_coupons
        (histories, 100)).histories.0
    ≡ held 5 1 histories
      + length (filter (λ c. c.id == 5 && is_meant (1 ∷ 2 ∷ []) people 1 c) level_coupons)
held-issue_auto_issue_coupons_to_target_grades_example =
    held-issue_auto_issue_coupons_to_target_grades 5 1 (1 ∷ 2 ∷ []) people january 5 level_coupons
      (histories, 100)

-- The one automatic coupon is meant for the user.
one_is_meant :
    length (filter (λ c. c.id == 5 && is_meant (1 ∷ 2 ∷ []) people 1 c) level_coupons) ≡ 1
one_is_meant = refl

abbrev to_inactive : UpdateCoupon
to_inactive = record {
  code = none;
  coupon_type = none;
  discount_rate = none;
  discount_amount = none;
  max_discount_amount = none;
  min_purchase_amount = none;
  is_active = some false;
  is_auto_issue = none;
  target_grades = none;
  start_date = none;
  end_date = none;
}

abbrev updated : List Coupon × Histories
updated =
    value_or (coupons, nobody)
      (update_coupon 5 to_inactive (1 ∷ 2 ∷ []) people 5 (automatic ∷ []) (histories, 100))

automatic-update_coupon :
    update_coupon 5 to_inactive (1 ∷ 2 ∷ []) people 5 (automatic ∷ []) (histories, 100)
    ≡ ok (updated.0, updated.1)
unfolding update_coupon check_update check_discount issue_on_update
    issue_coupon_to_users_by_target_grades users_at validate_coupon_for_issuance create_bulk
    create_many set_coupon
automatic-update_coupon = refl

update_coupon-held_example : held 5 1 updated.1.0 ≡ 0
update_coupon-held_example =
    update_coupon-held 5 1 to_inactive (1 ∷ 2 ∷ []) people 5 (automatic ∷ []) (histories, 100) refl
      automatic-update_coupon
