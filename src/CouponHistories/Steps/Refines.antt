-- ===== src/CouponHistories/Steps/Refines.antt =====
-- Every step on the table does to the users' coupons what the contract allows.
use lif_low_backend.Prelude.{
  ℕ, ◌≡◌, refl, sym, ap, ◌∙◌, subst, String, List, [], arith, Bool-cases, Option-cases, inl, inr,
  is_empty,
}
use lif_low_backend.Schema.{User, Table, Coupon, CouponHistory, ok, >>=-eq-ok, ok-injective}
use lif_low_backend.Coupons.{Histories, set_history}
use lif_low_backend.Coupons.Used.{taken}
use lif_low_backend.CouponHistories.{
  Issue, create_with_quantity, Period, one_issue, create_bulk, mark_cancelled,
}
use lif_low_backend.CouponHistories.Held.{
  held-create_many, held-create_with_quantity, held-expire_all_by_coupon_id,
}
use lif_low_backend.CouponHistories.Sound.{IsFresh}
use lif_low_backend.CouponHistories.Issuance.{
  issue_to_all, users_at, issue_coupon_to_users_by_target_grades, find_coupon,
  validate_coupon_for_issuance,
}
use lif_low_backend.CouponHistories.Issuance.Laws.{issue_coupon-held}
use lif_low_backend.CouponHistories.Usage.{cancel_coupon}
use lif_low_backend.CouponHistories.Usage.Laws.{use_coupon_fails, cancel_coupon-eq-ok}
use lif_low_backend.CouponHistories.Levels.{birthday, issue_of}
use lif_low_backend.CouponHistories.Levels.Closure.{closed-issue_of_code, closed-issue_after_update}
use lif_low_backend.CouponHistories.Schedule.Monthly.{
  held-issue_auto_issue_coupons_to_target_grades,
}
use lif_low_backend.CouponHistories.Steps.{
  Step, issuing, issuing_by_grades, paying, using, cancelling, on_birthday, after_update, monthly,
  nightly, expiring, reactivating, expiring_old, deleting, Run, stay, step,
}
use lif_low_backend.CouponHistories.Steps.Closed.{Step-KeptBut}
use lif_low_backend.CouponHistories.Steps.Wallet.{
  wallet_of, offer, welcome, withdraw, Move, event_of, events_of, Moves,
}
use lif_low_backend.CouponHistories.Steps.Numbers.{
  held_in-mine, taken_le, held-use_history_of, find_lem, no_kind_in, held-cancelled, lost_by_night,
  revived, lost_by_age, lost_by_deletion,
}

-- An answer brings what holds of what it is an answer of.
offered :
    (k : ℕ) (us : List ℕ) (s : Histories) (made : ℕ × Histories) {n : ℕ} {s' : Histories}
    → Move (offer k us) (wallet_of s) (wallet_of made.1)
    → ok made ≡ ok (n, s')
    → Move (offer k us) (wallet_of s) (wallet_of s')
offered k us s made {n} {s'} m h =
    subst (λ t. Move (offer k us) (wallet_of s) (wallet_of t)) (ap (λ r. r.1) (ok-injective h)) m

created :
    (k : ℕ) (us : List ℕ) (period : Period) (now : ℕ) (s : Histories)
    → Move (offer k us) (wallet_of s) (wallet_of (create_bulk k us period now s).1)
unfolding create_bulk Move
created k us period now s = inr λ j v. held-create_many j v k (one_issue period now) us s

to_all :
    (k : ℕ) (us : List ℕ) (period : Period) (coupons : List Coupon) (now : ℕ) (s : Histories)
    → Move (offer k us) (wallet_of s) (wallet_of (issue_to_all k us period coupons now s).1)
unfolding issue_to_all Move
to_all k us period coupons now s = elim (Option-cases (find_coupon k coupons)) [
  | inl e ↦ inl λ j v. rw (e, issue_to_all) refl
  | inr (c, e) ↦ elim (Bool-cases c.is_active) [
    | inl a ↦ rw (e, a, issue_to_all) (created k us period now s)
    | inr a ↦ inl λ j v. rw (e, a, issue_to_all) refl
  ]
]

unchanged : (k : ℕ) (us : List ℕ) (s : Histories) → Move (offer k us) (wallet_of s) (wallet_of s)
unfolding Move
unchanged k us s = inl λ j v. refl

by_grades :
    (k : ℕ) (grades : List String) (period : Period) (ids : List ℕ) (users : Table User)
    (coupons : List Coupon) (now : ℕ) (s : Histories) {n : ℕ} {s' : Histories}
    → issue_coupon_to_users_by_target_grades k grades period ids users coupons now s ≡ ok (n, s')
    → Move (offer k (users_at grades ids users)) (wallet_of s) (wallet_of s')
unfolding issue_coupon_to_users_by_target_grades
by_grades k grades period ids users coupons now s {n} {s'} h =
    let us = users_at grades ids users in
    let made = create_bulk k us period now s in
    elim (Bool-cases (is_empty us)) [
      | inl e ↦ offered k us s (0, s) (unchanged k us s) (rw e at h)
      | inr e ↦ elim (Bool-cases (is_empty grades)) [
        | inl g ↦
            offered k us s (issue_to_all k us period coupons now s)
              (to_all k us period coupons now s) (rw g at (rw e at h))
        | inr g ↦
            let (c, valid, rest) =
              >>=-eq-ok (validate_coupon_for_issuance k coupons) (λ _. ok made)
                (rw g at (rw e at h)) in
            offered k us s made (created k us period now s) rest
      ]
    ]

-- A user may gain, and nobody else.
Welcomes : ℕ → Histories → Histories → Type 0
Welcomes u s t = Move (welcome u) (wallet_of s) (wallet_of t)

Welcomes-refl : (u : ℕ) (s : Histories) → Welcomes u s s
unfolding Welcomes Move
Welcomes-refl u s j v = (ground arith, λ _. refl)

Welcomes-trans : (u : ℕ) (r s t : Histories) → Welcomes u r s → Welcomes u s t → Welcomes u r t
unfolding Welcomes Move
Welcomes-trans u r s t a b j v =
    (omega (arith, (a j v).0, (b j v).0), λ o. (b j v).1 o ∙ (a j v).1 o)

Welcomes-create_with_quantity :
    (k u : ℕ) (i : Issue) (s : Histories) → Welcomes u s (create_with_quantity k u i s)
unfolding Welcomes Move
Welcomes-create_with_quantity k u i s j v =
    let more = held-create_with_quantity j v k u i s in
    (omega (arith, more), λ o. ground (arith, o, more))

withdrawn :
    (id now : ℕ) (hs : List CouponHistory) {hs' : List CouponHistory} (last : ℕ)
    → IsFresh (hs, last)
    → cancel_coupon id now hs ≡ ok hs'
    → Move withdraw (wallet_of (hs, last)) (wallet_of (hs', last))
unfolding Move
withdrawn id now hs {hs'} last f e =
    let (h, found, issued, made) = cancel_coupon-eq-ok id now hs e in
    let (l, q) = find_lem id hs found in
    let set : hs' ≡ set_history h.id (mark_cancelled now) hs =
      made ∙ ap (λ i. set_history i (mark_cancelled now) hs) (sym q) in
    elim (Option-cases h.coupon_id) [
      | inl none_of ↦ (
        0,
        0,
        0,
        λ j v. rw set (ground (arith, held-cancelled j v now hs h f.0 l, no_kind_in j v h none_of)),
      )
      | inr (k, kind) ↦ (
        k,
        h.user_id,
        h.quantity,
        λ j v. rw set (
            ground (
              arith,
              held-cancelled j v now hs h f.0 l,
              held_in-mine j v k h.user_id h (rw kind (ground (arith, issued))),
            )),
      )
    ]

refines-Step :
    {s s' : Histories} (a : Step s s') → IsFresh s → Move (event_of a) (wallet_of s) (wallet_of s')
unfolding Move event_of Welcomes
refines-Step (issuing k us coupons now n {s} h) f =
    let (none_before, numbers, _) = issue_coupon-held k us coupons now s h in (none_before, numbers)
refines-Step (issuing_by_grades k grades period ids users coupons now n {s} h) f =
    by_grades k grades period ids users coupons now s h
refines-Step (paying k q u {s}) f = (
  taken k u.user_id q s.0,
  taken_le k u.user_id q s.0,
  λ j v. held-use_history_of j v k q s.1 u s.0 f,
)
refines-Step (using share coupons now d r u {hs} h) f = use_coupon_fails share coupons now u hs _ h
refines-Step (cancelling id now {hs} {hs'} {last} h) f = withdrawn id now hs last f h
refines-Step (on_birthday coupons user now {s}) f =
    closed-issue_of_code (Welcomes user) (Welcomes-refl user) (Welcomes-trans user)
      (birthday user now)
      (λ k n t. Welcomes-create_with_quantity k user (issue_of n (birthday user now)) t) coupons
      "BIRTHDAY" 1 s
refines-Step (after_update users coupons o {s}) f =
    closed-issue_after_update (Welcomes o.user_id) (Welcomes-refl o.user_id)
      (Welcomes-trans o.user_id) o
      (λ k n t. Welcomes-create_with_quantity k o.user_id (issue_of n o) t) users coupons s
refines-Step (monthly ids users month now coupons {s}) f =
    λ j v. held-issue_auto_issue_coupons_to_target_grades j v ids users month now coupons s
refines-Step (nightly today coupons {hs} {last}) f = λ j v. lost_by_night j v today coupons hs
refines-Step (expiring k {hs}) f = λ j v. held-expire_all_by_coupon_id j v k hs
refines-Step (reactivating k now {hs}) f = λ j v. revived j v k now hs
refines-Step (expiring_old now {hs}) f = λ j v. lost_by_age j v now hs
refines-Step (deleting payment {hs}) f = λ j v. lost_by_deletion j v payment hs

-- A run does to the numbers of coupons that the users hold what the events of its steps allow, one
-- after the other, where each call, use in a payment or scheduled work is the one event that is
-- laid down for it: an issue gives each named user one coupon each time, and is of users who held
-- none; the monthly work gives as many as there are coupons meant for the user; a use in a payment
-- takes at most as many as it says from one user and one kind; a cancellation takes from one user
-- and one kind; and an expiry takes all of a kind. The identifiers were distinct at the start.
pub Run-Moves :
    {s s' : Histories} (r : Run s s') → IsFresh s → Moves (events_of r) (wallet_of s) (wallet_of s')
unfolding Moves events_of
Run-Moves stay f = λ j v. refl
Run-Moves (step {s} {t} {u} a rest) f =
    (wallet_of t, refines-Step a f, Run-Moves rest (Step-KeptBut a [] f).0)
