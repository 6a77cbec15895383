-- ===== src/CouponHistories/Sound/Scheduled.antt =====
-- The scheduled work on coupon histories is sound.
use lif_low_backend.Prelude.{
  unique, ℕ, refl, not, ◌&&◌, List, [], ◌∷◌, arith, filter, Bool-cases, inl, inr, is_empty,
  contains,
}
use lif_low_backend.Schema.{User, Table, Coupon, CouponHistory}
use lif_low_backend.Coupons.{Histories}
use lif_low_backend.CouponHistories.{is_issued_of, Period, one_issue, create_many}
use lif_low_backend.CouponHistories.Sound.{
  Sound, Sound-refl, Sound-trans, Sound-create_many, Sound-Changed, Changed, row, no_row,
}
use lif_low_backend.CouponHistories.Issuance.{users_at}
use lif_low_backend.CouponHistories.Schedule.{
  has_issued, is_automatic, grades_to_match, is_coupon_in_valid_period, raise_first, issue_to_users,
  issue_automatic, visit, issue_auto_issue_coupons_to_target_grades, expire_coupon,
  expire_by_coupon,
}
use lif_low_backend.CouponHistories.Sound.Calls.{no_closed, Sound-expire_all_by_coupon_id}

Changed-raise_first :
    (k : ℕ) (users seen : List ℕ) (hs : List CouponHistory)
    → Changed hs (raise_first k users seen hs)
unfolding raise_first
Changed-raise_first k users seen [] = no_row
Changed-raise_first k users seen (h ∷ hs) =
    elim (Bool-cases
      (is_issued_of k h && contains h.user_id users && not (contains h.user_id seen))) [
        | inl e ↦ rw e (
            row refl (λ c. absurd (no_closed h c (ground (arith, e))))
              (Changed-raise_first k users (h.user_id ∷ seen) hs))
        | inr e ↦ rw e (row refl (λ _. refl) (Changed-raise_first k users seen hs))
      ]

Sound-issue_to_users :
    (k : ℕ) (users : List ℕ) (month : Period) (now : ℕ) (s : Histories)
    → Sound s (issue_to_users k users month now s).1
unfolding issue_to_users
Sound-issue_to_users k users month now (hs, last) =
    let raised = raise_first k users [] hs in
    let to_create = filter (λ u. not (has_issued k hs u)) (unique [] users) in
    Sound-trans (hs, last) (raised, last)
      (create_many k (one_issue month now) to_create (raised, last))
      (Sound-Changed last (Changed-raise_first k users [] hs))
      (Sound-create_many k (one_issue month now) to_create (raised, last))

Sound-visit :
    (ids : List ℕ) (users : Table User) (month : Period) (now : ℕ) (c : Coupon) (s : Histories)
    → Sound s (visit ids users month now c s).histories
unfolding visit issue_automatic
Sound-visit ids users month now c s =
    let targets = users_at (grades_to_match c) ids users in
    elim (Bool-cases (is_automatic c)) [
      | inr e ↦ rw (e, visit) (Sound-refl s)
      | inl e ↦ elim (Bool-cases (not (is_empty c.target_grades) && is_empty (grades_to_match c))) [
        | inl g ↦ rw (e, g, visit, issue_automatic) (Sound-refl s)
        | inr g ↦ elim (Bool-cases (is_empty targets)) [
          | inl n ↦ rw (e, g, n, visit, issue_automatic) (Sound-refl s)
          | inr n ↦
              rw (e, g, n, visit, issue_automatic) (Sound-issue_to_users c.id targets month now s)
        ]
      ]
    ]

pub Sound-monthly :
    (ids : List ℕ) (users : Table User) (month : Period) (now : ℕ) (coupons : List Coupon)
    (s : Histories)
    → Sound s (issue_auto_issue_coupons_to_target_grades ids users month now coupons s).histories
unfolding issue_auto_issue_coupons_to_target_grades
Sound-monthly ids users month now [] s = Sound-refl s
Sound-monthly ids users month now (c ∷ cs) s =
    let t = (visit ids users month now c s).histories in
    Sound-trans s t (issue_auto_issue_coupons_to_target_grades ids users month now cs t).histories
      (Sound-visit ids users month now c s) (Sound-monthly ids users month now cs t)

Sound-expire_coupon :
    (today : ℕ) (c : Coupon) (hs : List CouponHistory) (last : ℕ)
    → Sound (hs, last) ((expire_coupon today c hs).1.1, last)
unfolding expire_coupon
Sound-expire_coupon today c hs last = elim (Bool-cases (is_coupon_in_valid_period today c)) [
  | inl e ↦ rw (e, expire_coupon) (Sound-refl (hs, last))
  | inr e ↦ rw (e, expire_coupon) (Sound-expire_all_by_coupon_id c.id hs last)
]

pub Sound-expire_by_coupon :
    (today : ℕ) (coupons : List Coupon) (hs : List CouponHistory) (last : ℕ)
    → Sound (hs, last) ((expire_by_coupon today coupons hs).1.1, last)
unfolding expire_by_coupon
Sound-expire_by_coupon today [] hs last = Sound-refl (hs, last)
Sound-expire_by_coupon today (c ∷ cs) hs last =
    let hs' = (expire_coupon today c hs).1.1 in
    Sound-trans (hs, last) (hs', last) ((expire_by_coupon today cs hs').1.1, last)
      (Sound-expire_coupon today c hs last) (Sound-expire_by_coupon today cs hs' last)
