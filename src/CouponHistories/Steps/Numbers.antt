-- ===== src/CouponHistories/Steps/Numbers.antt =====
-- What the single operations on the table do to the numbers of coupons that users hold.
use lif_low_backend.Prelude.{
  ℕ, ◌+◌, ◌≤◌, ◌≡◌, refl, sym, ap, ◌∙◌, true, false, not, none, some, List, [], ◌∷◌, arith, ◌==◌,
  ltb, find, Listed, Bool-cases, Option-cases, inl, inr, ==_iff, some-injective,
}
use lif_low_backend.Schema.{Coupon, CouponHistory}
use lif_low_backend.Coupons.{
  is_issued_to, oldest_issued, set_history, Use, use_history, mark_used, lower_quantity,
}
use lif_low_backend.Coupons.Used.{
  IsDistinct, held, held_in, taken, oldest_issued-Listed, held-set_history,
}
use lif_low_backend.CouponHistories.{
  expire_all_by_coupon_id, reactivate_expired_by_coupon_id, expire_old_coupons,
  delete_by_payment_id, mark_cancelled,
}
use lif_low_backend.CouponHistories.Held.{
  given, held-update_where, held-update_where_le, held-update_where_ge, held-filter,
  held-expire_all_by_coupon_id,
}
use lif_low_backend.CouponHistories.Sound.{IsFresh}
use lif_low_backend.CouponHistories.Schedule.{
  expire_coupon, expire_by_coupon, is_over, is_coupon_in_valid_period, expire_coupon_histories,
}

pub held_in-mine :
    (j v k u : ℕ) (h : CouponHistory)
    → is_issued_to k u h ≡ true
    → held_in j v h ≡ given j v k h.quantity (u ∷ [])
held_in-mine j v k u h mine = elim (Option-cases h.coupon_id) [
  | inl e ↦ absurd (cc (rw e at mine))
  | inr (i, e) ↦ rw e (ground (arith, rw e at mine))
]

pub taken_le : (k u q : ℕ) (hs : List CouponHistory) → taken k u q hs ≤ q
taken_le k u q hs = elim (Option-cases (oldest_issued k u hs)) [
  | inl e ↦ rw (e, taken) (ground arith)
  | inr (h, e) ↦ rw (e, taken) (ground arith)
]

pub held-use_history_of :
    (j v k q last : ℕ) (u : Use) (hs : List CouponHistory)
    → IsFresh (hs, last)
    → held j v (use_history k q u (hs, last)).0
        + given j v k (taken k u.user_id q hs) (u.user_id ∷ [])
      ≡ held j v hs
unfolding use_history
held-use_history_of j v k q last u hs f = elim (Option-cases (oldest_issued k u.user_id hs)) [
  | inl e ↦ rw (e, use_history) (ground arith)
  | inr (h, e) ↦
      let (l, mine) = oldest_issued-Listed k u.user_id hs e in
      let now = held_in-mine j v k u.user_id h mine in
      elim (Bool-cases (ltb q h.quantity)) [
        | inl part ↦
            let later = held_in-mine j v k u.user_id (lower_quantity q h) mine in
            rw (e, part, use_history)
              (ground (arith, part, now, later, held-set_history j v (lower_quantity q) hs h f.0 l))
        | inr whole ↦
            rw (e, whole, use_history)
              (ground (arith, now, held-set_history j v (mark_used u) hs h f.0 l))
      ]
]

pub find_lem :
    (id : ℕ) (hs : List CouponHistory) {h : CouponHistory}
    → find (λ (g : CouponHistory). g.id == id) hs ≡ some h
    → Listed h hs × (h.id ≡ id)
find_lem id [] e = cc
find_lem id (g ∷ hs) {h} e = elim (Bool-cases (g.id == id)) [
  | inl same ↦
      let q : g ≡ h = some-injective (rw same at e) in
      (inl (sym q), ap (λ x. x.id) (sym q) ∙ (==_iff _ _).0 same)
  | inr other ↦ let (l, q) = find_lem id hs (rw other at e) in (inr l, q)
]

cancelled_in : (j v now : ℕ) (h : CouponHistory) → held_in j v (mark_cancelled now h) ≡ 0
cancelled_in j v now h = ground arith

pub no_kind_in : (j v : ℕ) (h : CouponHistory) → h.coupon_id ≡ none → held_in j v h ≡ 0
no_kind_in j v h e = rw e refl

pub held-cancelled :
    (j v now : ℕ) (hs : List CouponHistory) (h : CouponHistory)
    → IsDistinct hs
    → Listed h hs
    → held j v (set_history h.id (mark_cancelled now) hs) + held_in j v h ≡ held j v hs
held-cancelled j v now hs h d l =
    omega (arith, held-set_history j v (mark_cancelled now) hs h d l, cancelled_in j v now h)

held-expire_by_coupon :
    (j v today : ℕ) (coupons : List Coupon) (hs : List CouponHistory)
    → held j v (expire_by_coupon today coupons hs).1.1 ≤ held j v hs
unfolding expire_by_coupon expire_coupon
held-expire_by_coupon j v today [] hs = ground arith
held-expire_by_coupon j v today (c ∷ cs) hs =
    elim (Bool-cases (is_coupon_in_valid_period today c)) [
      | inl e ↦ rw (e, expire_coupon) (held-expire_by_coupon j v today cs hs)
      | inr e ↦
          let hs' = (expire_all_by_coupon_id c.id hs).1 in
          rw (e, expire_coupon)
            (ground (
              arith,
              held-expire_by_coupon j v today cs hs',
              held-expire_all_by_coupon_id j v c.id hs,
            ))
    ]

pub lost_by_night :
    (j v today : ℕ) (coupons : List Coupon) (hs : List CouponHistory)
    → held j v (expire_coupon_histories today coupons hs).1.1 ≤ held j v hs
unfolding expire_coupon_histories
lost_by_night j v today coupons hs = omega (
  arith,
  held-expire_by_coupon j v today coupons hs,
  held-filter (λ h. not (is_over today h)) j v (expire_by_coupon today coupons hs).1.1,
)

pub revived :
    (j v k now : ℕ) (hs : List CouponHistory)
    → (held j v hs ≤ held j v (reactivate_expired_by_coupon_id k now hs))
      × ((k == j) ≡ false → held j v (reactivate_expired_by_coupon_id k now hs) ≡ held j v hs)
unfolding reactivate_expired_by_coupon_id
revived j v k now hs = (
  held-update_where_ge _ _ j v (λ h e. ground (arith, e)) hs,
  λ other. held-update_where _ _ j v (λ h e. ground (arith, e, other)) hs,
)

pub lost_by_age :
    (j v now : ℕ) (hs : List CouponHistory) → held j v (expire_old_coupons now hs) ≤ held j v hs
unfolding expire_old_coupons
lost_by_age j v now hs = held-update_where_le _ _ j v (λ h e. ground (arith, e)) hs

pub lost_by_deletion :
    (j v payment : ℕ) (hs : List CouponHistory)
    → held j v (delete_by_payment_id payment hs) ≤ held j v hs
unfolding delete_by_payment_id
lost_by_deletion j v payment hs = held-filter _ j v hs
