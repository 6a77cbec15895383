-- ===== src/CouponHistories/Schedule.antt =====
-- The scheduled work on coupons: src/modules/coupon-history/cronjob/coupon-history.cronjob.service.ts.
-- The bounds of the month and the start of the day are arguments.
pub mod Monthly
use lif_low_backend.Prelude.{
  ℕ, suc, ◌+◌, String, Bool, true, false, not, ◌&&◌, ◌||◌, Option, none, some, List, [], ◌∷◌, ltb,
  ◌==◌, if◌then◌else◌, filter, length, contains, is_empty, any, unique,
}
use lif_low_backend.Schema.{User, Table, Coupon, CouponHistory}
use lif_low_backend.Coupons.{Histories}
use lif_low_backend.CouponHistories.{
  is_issued_of, one_issue, Period, create_many, expire_all_by_coupon_id,
}
use lif_low_backend.CouponHistories.Issuance.{includes, users_at}

-- `Object.values(EMembershipLevel)`
abbrev pub valid_grades : List String
valid_grades = "LV1. 씨앗" ∷ "LV2. 새싹" ∷ "LV3. 열매" ∷ "LV4. 나무" ∷ "LV5. 정원" ∷ []

abbrev pub is_automatic : Coupon → Bool
is_automatic c = c.is_active && c.is_auto_issue || c.is_permanent && c.is_active

abbrev pub grades_to_match : Coupon → List String
grades_to_match c = filter (λ g. includes g valid_grades) c.target_grades

-- The user holds an issued history of the coupon (`userIdToHistoryId.has`).
abbrev pub has_issued : ℕ → List CouponHistory → ℕ → Bool
has_issued k hs u = any (λ (h : CouponHistory). is_issued_of k h && h.user_id == u) hs

abbrev pub raise_quantity : CouponHistory → CouponHistory
raise_quantity h = record h { quantity = suc h.quantity }

-- The first issued history of each of the users, with one more coupon (`existingIdsToUpdate` and
-- the `updateMany` over them), after the users that were seen.
unfoldable pub raise_first : ℕ → List ℕ → List ℕ → List CouponHistory → List CouponHistory
raise_first k users seen [] = []
raise_first k users seen (h ∷ hs) =
    let raised = raise_first k users (h.user_id ∷ seen) hs in
    let rest = raise_first k users seen hs in
    if is_issued_of k h && contains h.user_id users && not (contains h.user_id seen)
    then raise_quantity h ∷ raised
    else h ∷ rest

-- One coupon for the users that it is meant for, with the number of new histories.
unfoldable pub issue_to_users : ℕ → List ℕ → Period → ℕ → Histories → ℕ × Histories
issue_to_users k users month now (hs, last) =
    let to_create = filter (λ u. not (has_issued k hs u)) (unique [] users) in
    (
      length to_create,
      create_many k (one_issue month now) to_create (raise_first k users [] hs, last),
    )

abbrev pub in_month : Period → Coupon → Coupon
in_month month c = record c { start_date = month.start_date; end_date = month.end_date }

-- What became of one coupon: the coupon, whether it counts as processed, the number of histories
-- created, and the histories.
pub record Visit : Type 0 where
  pub coupon : Coupon
  pub processed : ℕ
  pub created : ℕ
  pub histories : Histories

-- The body of the loop over the coupons.
unfoldable pub issue_automatic : List ℕ → Table User → Period → ℕ → Coupon → Histories → Visit
issue_automatic ids users month now c s =
    let grades = grades_to_match c in
    let targets = users_at grades ids users in
    let issued = issue_to_users c.id targets month now s in
    if not (is_empty c.target_grades) && is_empty grades
    then record { coupon = c; processed = 0; created = 0; histories = s }
    else if is_empty targets
    then record { coupon = c; processed = 1; created = 0; histories = s }
    else record {
      coupon = in_month month c;
      processed = 1;
      created = issued.0;
      histories = issued.1;
    }

-- The loop visits the coupons that the query finds.
unfoldable pub visit : List ℕ → Table User → Period → ℕ → Coupon → Histories → Visit
visit ids users month now c s =
    if is_automatic c
    then issue_automatic ids users month now c s
    else record { coupon = c; processed = 0; created = 0; histories = s }

-- The coupons after the call, the numbers of coupons processed and of histories created, and the
-- histories.
pub record Outcome : Type 0 where
  pub coupons : List Coupon
  pub processed : ℕ
  pub created : ℕ
  pub histories : Histories

unfoldable pub issue_auto_issue_coupons_to_target_grades :
    List ℕ → Table User → Period → ℕ → List Coupon → Histories → Outcome
issue_auto_issue_coupons_to_target_grades ids users month now [] s = record {
  coupons = [];
  processed = 0;
  created = 0;
  histories = s;
}
issue_auto_issue_coupons_to_target_grades ids users month now (c ∷ cs) s =
    let done = visit ids users month now c s in
    let rest = issue_auto_issue_coupons_to_target_grades ids users month now cs done.histories in
    record rest {
      coupons = done.coupon ∷ rest.coupons;
      processed = done.processed + rest.processed;
      created = done.created + rest.created;
    }

abbrev pub is_before : ℕ → Option ℕ → Bool
is_before today none = false
is_before today (some d) = ltb d today

-- `isCouponInValidPeriod`
abbrev pub is_coupon_in_valid_period : ℕ → Coupon → Bool
is_coupon_in_valid_period today c = not (is_before today c.end_date)

abbrev pub deactivated : Coupon → Coupon
deactivated c = record c { is_active = false }

-- The body of the loop of `expireCouponHistories`: a coupon that is over is made inactive, and its
-- histories expire.
unfoldable pub expire_coupon : ℕ → Coupon → List CouponHistory → ℕ × (Coupon × List CouponHistory)
expire_coupon today c hs =
    let expired = expire_all_by_coupon_id c.id hs in
    if is_coupon_in_valid_period today c
    then (0, (c, hs))
    else (expired.0, (deactivated c, expired.1))

unfoldable pub expire_by_coupon :
    ℕ → List Coupon → List CouponHistory → ℕ × (List Coupon × List CouponHistory)
expire_by_coupon today [] hs = (0, ([], hs))
expire_by_coupon today (c ∷ cs) hs =
    let (count, (c', hs')) = expire_coupon today c hs in
    let (more, (cs', hs'')) = expire_by_coupon today cs hs' in (count + more, (c' ∷ cs', hs''))

abbrev pub is_over : ℕ → CouponHistory → Bool
is_over today h = is_before today h.end_date

-- `expireCouponHistories`, with the numbers that expired and that were deleted.
unfoldable pub expire_coupon_histories :
    ℕ → List Coupon → List CouponHistory → (ℕ × ℕ) × (List Coupon × List CouponHistory)
expire_coupon_histories today coupons hs =
    let (expired, (coupons', hs')) = expire_by_coupon today coupons hs in
    (
      (expired, length (filter (is_over today) hs')),
      (coupons', filter (λ h. not (is_over today h)) hs'),
    )
