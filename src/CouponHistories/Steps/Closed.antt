-- ===== src/CouponHistories/Steps/Closed.antt =====
-- Over any run of the calls and the scheduled work, a used or cancelled history stays as it is, but
-- for those that the nightly work deletes after their last day.
use lif_low_backend.Prelude.{
  ℕ, ◌≡◌, refl, sym, ap, subst, true, not, String, List, [], ◌∷◌, arith, Listed, Bool-cases,
  Option-cases, inl, inr, ◌⊎◌, is_empty,
}
use lif_low_backend.Schema.{
  User, Table, Coupon, CouponHistory, CouponHistoryStatus, ok, >>=-eq-ok, ok-injective,
}
use lif_low_backend.Coupons.{Histories}
use lif_low_backend.CouponHistories.{
  Period, create_bulk, with_status, reactivate_expired_by_coupon_id, expire_old_coupons,
  delete_by_payment_id, mark_cancelled,
}
use lif_low_backend.CouponHistories.Sound.{
  is_closed, IsFresh, Sound, Sound-refl, Sound-Changed, Changed, Changed-update_where,
  Changed-set_history, Sound-filter, Listed-filter, IsFresh-filter,
}
use lif_low_backend.CouponHistories.Issuance.{
  issue_to_all, users_at, no_period, issue_coupon_to_users_by_target_grades, find_coupon,
  validate_coupon_for_issuance,
}
use lif_low_backend.CouponHistories.Issuance.Laws.{issue_coupon-eq-ok}
use lif_low_backend.CouponHistories.Usage.Laws.{use_coupon_fails, cancel_coupon-eq-ok}
use lif_low_backend.CouponHistories.Schedule.{expire_by_coupon, is_over, expire_coupon_histories}
use lif_low_backend.CouponHistories.Steps.{
  Step, issuing, issuing_by_grades, paying, using, cancelling, on_birthday, after_update, monthly,
  nightly, expiring, reactivating, expiring_old, deleting, Run, stay, step, night_of, nights,
}
use lif_low_backend.CouponHistories.Sound.Calls.{
  issued_open, no_closed, Sound-use_history, Sound-create_bulk, Sound-expire_all_by_coupon_id,
  Sound-issue_of_code, Sound-issue_after_update,
}
use lif_low_backend.CouponHistories.Sound.Scheduled.{Sound-monthly, Sound-expire_by_coupon}

-- An answer brings the soundness of what it is an answer of.
Sound-ok :
    (s : Histories) (made : ℕ × Histories) {n : ℕ} {s' : Histories}
    → Sound s made.1
    → ok made ≡ ok (n, s')
    → Sound s s'
Sound-ok s made {n} {s'} a h = subst (Sound s) (ap (λ r. r.1) (ok-injective h)) a

Sound-issue_to_all :
    (k : ℕ) (us : List ℕ) (period : Period) (coupons : List Coupon) (now : ℕ) (s : Histories)
    → Sound s (issue_to_all k us period coupons now s).1
unfolding issue_to_all
Sound-issue_to_all k us period coupons now s = elim (Option-cases (find_coupon k coupons)) [
  | inl e ↦ rw (e, issue_to_all) (Sound-refl s)
  | inr (c, e) ↦ elim (Bool-cases c.is_active) [
    | inl a ↦ rw (e, a, issue_to_all) (Sound-create_bulk k us period now s)
    | inr a ↦ rw (e, a, issue_to_all) (Sound-refl s)
  ]
]

Sound-by_grades :
    (k : ℕ) (grades : List String) (period : Period) (ids : List ℕ) (users : Table User)
    (coupons : List Coupon) (now : ℕ) (s : Histories) {n : ℕ} {s' : Histories}
    → issue_coupon_to_users_by_target_grades k grades period ids users coupons now s ≡ ok (n, s')
    → Sound s s'
unfolding issue_coupon_to_users_by_target_grades
Sound-by_grades k grades period ids users coupons now s {n} {s'} h =
    let us = users_at grades ids users in
    let made = create_bulk k us period now s in
    elim (Bool-cases (is_empty us)) [
      | inl e ↦ Sound-ok s (0, s) (Sound-refl s) (rw e at h)
      | inr e ↦ elim (Bool-cases (is_empty grades)) [
        | inl g ↦
            Sound-ok s (issue_to_all k us period coupons now s)
              (Sound-issue_to_all k us period coupons now s) (rw g at (rw e at h))
        | inr g ↦
            let (c, valid, rest) =
              >>=-eq-ok (validate_coupon_for_issuance k coupons) (λ _. ok made)
                (rw g at (rw e at h)) in
            Sound-ok s made (Sound-create_bulk k us period now s) rest
      ]
    ]

Changed-reactivate :
    (k now : ℕ) (hs : List CouponHistory) → Changed hs (reactivate_expired_by_coupon_id k now hs)
unfolding reactivate_expired_by_coupon_id
Changed-reactivate k now =
    Changed-update_where _ (with_status CouponHistoryStatus.issued) (λ _. refl)
      (λ h e. ground (arith, e))

Changed-expire_old : (now : ℕ) (hs : List CouponHistory) → Changed hs (expire_old_coupons now hs)
unfolding expire_old_coupons
Changed-expire_old now =
    Changed-update_where _ (with_status CouponHistoryStatus.expired) (λ _. refl)
      (λ h e. ground (arith, e))

Sound-delete_by_payment_id :
    (payment : ℕ) (hs : List CouponHistory) (last : ℕ)
    → Sound (hs, last) (delete_by_payment_id payment hs, last)
unfolding delete_by_payment_id
Sound-delete_by_payment_id payment hs last =
    Sound-filter _ (λ h c. ground (arith, no_closed h c)) hs last

-- A closed history is kept, or was deleted on one of the days, after its last day.
abbrev KeptBut : List ℕ → Histories → Histories → Type 0
KeptBut days s s' =
    (h : CouponHistory)
    → Listed h s.0
    → is_closed h ≡ true
    → Listed h s'.0 ⊎ ((t : ℕ) × Listed t days × (is_over t h ≡ true))

kept_by_night :
    (today : ℕ) (days : List ℕ) (coupons : List Coupon) (hs : List CouponHistory) (last : ℕ)
    → IsFresh (hs, last)
    → IsFresh ((expire_coupon_histories today coupons hs).1.1, last)
      × KeptBut (today ∷ days) (hs, last) ((expire_coupon_histories today coupons hs).1.1, last)
unfolding expire_coupon_histories
kept_by_night today days coupons hs last f =
    let hs' = (expire_by_coupon today coupons hs).1.1 in
    let (fresh, kept) = Sound-expire_by_coupon today coupons hs last f in
    (
      IsFresh-filter (λ h. not (is_over today h)) hs' last fresh,
      λ h l c. elim (Bool-cases (is_over today h)) [
        | inl e ↦ inr (today, inl refl, e)
        | inr e ↦ inl (Listed-filter (λ g. not (is_over today g)) h hs' (rw e refl) (kept h l c))
      ],
    )

kept_by_day :
    (days : List ℕ) (s s' : Histories) → Sound s s' → IsFresh s → IsFresh s' × KeptBut days s s'
kept_by_day days s s' a f = let (fresh, kept) = a f in (fresh, λ h l c. inl (kept h l c))

pub Step-KeptBut :
    {s s' : Histories} (a : Step s s') (days : List ℕ)
    → IsFresh s
    → IsFresh s' × KeptBut (night_of a days) s s'
unfolding night_of
Step-KeptBut (nightly today coupons {hs} {last}) days = kept_by_night today days coupons hs last
Step-KeptBut (issuing k us coupons now n {s} {s'} h) days =
    let (c, valid, free, made) = issue_coupon-eq-ok k us coupons now s h in
    kept_by_day days s s' (subst (Sound s) (sym made) (Sound-create_bulk k us no_period now s))
Step-KeptBut (issuing_by_grades k grades period ids users coupons now n {s} {s'} h) days =
    kept_by_day days s s' (Sound-by_grades k grades period ids users coupons now s h)
Step-KeptBut (paying k q u {s}) days = kept_by_day days s _ (Sound-use_history k q u s)
Step-KeptBut (using share coupons now d r u {hs} h) days =
    absurd (use_coupon_fails share coupons now u hs _ h)
Step-KeptBut (cancelling id now {hs} {hs'} {last} h) days =
    let (g, found, issued, made) = cancel_coupon-eq-ok id now hs h in
    kept_by_day days (hs, last) (hs', last)
      (subst (λ t. Sound (hs, last) (t, last)) (sym made)
        (Sound-Changed last (
          Changed-set_history id (mark_cancelled now) hs (λ _. refl) found (issued_open g issued))))
Step-KeptBut (on_birthday coupons user now {s}) days =
    kept_by_day days s _ (Sound-issue_of_code coupons "BIRTHDAY" 1 _ s)
Step-KeptBut (after_update users coupons o {s}) days =
    kept_by_day days s _ (Sound-issue_after_update users coupons o s)
Step-KeptBut (monthly ids users month now coupons {s}) days =
    kept_by_day days s _ (Sound-monthly ids users month now coupons s)
Step-KeptBut (expiring k {hs} {last}) days =
    kept_by_day days (hs, last) _ (Sound-expire_all_by_coupon_id k hs last)
Step-KeptBut (reactivating k now {hs} {last}) days =
    kept_by_day days (hs, last) _ (Sound-Changed last (Changed-reactivate k now hs))
Step-KeptBut (expiring_old now {hs} {last}) days =
    kept_by_day days (hs, last) _ (Sound-Changed last (Changed-expire_old now hs))
Step-KeptBut (deleting payment {hs} {last}) days =
    kept_by_day days (hs, last) _ (Sound-delete_by_payment_id payment hs last)

more_days :
    {s s' : Histories} (a : Step s s') (t : ℕ) (days : List ℕ)
    → Listed t days
    → Listed t (night_of a days)
unfolding night_of
more_days (nightly today coupons) t days l = inr l
more_days (issuing k us coupons now n h) t days l = l
more_days (issuing_by_grades k grades period ids users coupons now n h) t days l = l
more_days (paying k q u) t days l = l
more_days (using share coupons now d r u h) t days l = l
more_days (cancelling id now h) t days l = l
more_days (on_birthday coupons user now) t days l = l
more_days (after_update users coupons o) t days l = l
more_days (monthly ids users month now coupons) t days l = l
more_days (expiring k) t days l = l
more_days (reactivating k now) t days l = l
more_days (expiring_old now) t days l = l
more_days (deleting payment) t days l = l

-- Over any run of the calls, of the uses in payments and of the scheduled work, a history that was
-- used or cancelled stays in the table just as it is, unless the nightly work was done in the run
-- on a day after the last day of the history. The identifiers were distinct at the start.
pub Run-Keeps :
    {s s' : Histories}
    → IsFresh s
    → (r : Run s s') (h : CouponHistory) → Listed h s.0
    → is_closed h ≡ true
    → Listed h s'.0 ⊎ ((t : ℕ) × Listed t (nights r) × (is_over t h ≡ true))
unfolding nights
Run-Keeps f stay h l c = inl l
Run-Keeps f (step a rest) h l c =
    let (fresh, kept) = Step-KeptBut a (nights rest) f in
    elim (kept h l c) [
      | inr gone ↦ inr gone
      | inl l' ↦ elim (Run-Keeps fresh rest h l' c) [
        | inl there ↦ inl there
        | inr (t, day, over) ↦ inr (t, more_days a t (nights rest) day, over)
      ]
    ]

-- Over any such run the identifiers stay distinct, and none is above the last that was handed out.
pub Run-IsFresh : {s s' : Histories} → IsFresh s → Run s s' → IsFresh s'
Run-IsFresh f stay = f
Run-IsFresh f (step a rest) = Run-IsFresh (Step-KeptBut a [] f).0 rest
