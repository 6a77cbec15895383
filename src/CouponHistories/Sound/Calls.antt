-- ===== src/CouponHistories/Sound/Calls.antt =====
-- The calls on coupon histories are sound.
use lif_low_backend.Prelude.{
  ℕ, suc, ◌≡◌, refl, true, false, String, List, ◌∷◌, arith, ltb, Bool-cases, Option-cases, inl, inr,
}
use lif_low_backend.Schema.{User, Table, Coupon, CouponHistory, CouponHistoryStatus, is_issued}
use lif_low_backend.Coupons.{
  Histories, is_issued_to, oldest_issued, set_history, Use, used_history, use_history, mark_used,
  lower_quantity,
}
use lif_low_backend.Coupons.Used.{oldest_issued-Listed}
use lif_low_backend.CouponHistories.{
  is_issued_of, Period, one_issue, create_bulk, with_status, expire_all_by_coupon_id,
}
use lif_low_backend.CouponHistories.Sound.{
  is_closed, Sound, Sound-refl, Sound-trans, Sound-new, Sound-create_many,
  Sound-create_with_quantity, Sound-Changed, Changed-update_where, Changed-set_history, find-Listed,
}
use lif_low_backend.CouponHistories.Levels.{Occasion, issue_of, issue_of_code, issue_after_update}
use lif_low_backend.CouponHistories.Levels.Closure.{closed-issue_of_code, closed-issue_after_update}

pub issued_open : (h : CouponHistory) → is_issued h.status ≡ true → is_closed h ≡ false
issued_open h e = ground (arith, e)

pub no_closed : (h : CouponHistory) → is_closed h ≡ true → is_issued h.status ≡ true → ⊥
no_closed h c e = cc (c, issued_open h e)

issued_to : (k u : ℕ) (h : CouponHistory) → is_issued_to k u h ≡ true → is_issued h.status ≡ true
issued_to k u h e = ground (arith, e)

pub Sound-use_history : (k q : ℕ) (u : Use) (s : Histories) → Sound s (use_history k q u s)
unfolding use_history
Sound-use_history k q u (hs, last) f = elim (Option-cases (oldest_issued k u.user_id hs)) [
  | inl e ↦ rw (e, use_history) (Sound-new (used_history (suc last) k 1 u) hs last refl f)
  | inr (h, e) ↦
      let (l, mine) = oldest_issued-Listed k u.user_id hs e in
      let found = find-Listed hs h f.0 l in
      let free = issued_open h (issued_to k u.user_id h mine) in
      elim (Bool-cases (ltb q h.quantity)) [
        | inl part ↦
            rw (e, part, use_history)
              (Sound-trans (hs, last) (set_history h.id (lower_quantity q) hs, last)
                (used_history (suc last) k q u ∷ set_history h.id (lower_quantity q) hs, suc last)
                (Sound-Changed last
                  (Changed-set_history h.id (lower_quantity q) hs (λ _. refl) found free))
                (Sound-new (used_history (suc last) k q u) (set_history h.id (lower_quantity q) hs)
                  last refl)
                f)
        | inr whole ↦
            rw (e, whole, use_history)
              (Sound-Changed last (Changed-set_history h.id (mark_used u) hs (λ _. refl) found free)
                f)
      ]
]

pub Sound-create_bulk :
    (k : ℕ) (us : List ℕ) (period : Period) (now : ℕ) (s : Histories)
    → Sound s (create_bulk k us period now s).1
unfolding create_bulk
Sound-create_bulk k us period now s = Sound-create_many k (one_issue period now) us s

pub Sound-expire_all_by_coupon_id :
    (k : ℕ) (hs : List CouponHistory) (last : ℕ)
    → Sound (hs, last) ((expire_all_by_coupon_id k hs).1, last)
unfolding expire_all_by_coupon_id
Sound-expire_all_by_coupon_id k hs last = Sound-Changed last (
    Changed-update_where (is_issued_of k) (with_status CouponHistoryStatus.expired) (λ _. refl)
      (λ h e. ground (arith, e)) hs)

pub Sound-issue_of_code :
    (coupons : List Coupon) (code : String) (n : ℕ) (o : Occasion) (s : Histories)
    → Sound s (issue_of_code coupons code n o s).1
Sound-issue_of_code coupons code n o s =
    closed-issue_of_code Sound Sound-refl Sound-trans o
      (λ k m t. Sound-create_with_quantity k o.user_id (issue_of m o) t) coupons code n s

pub Sound-issue_after_update :
    (users : Table User) (coupons : List Coupon) (o : Occasion) (s : Histories)
    → Sound s (issue_after_update users coupons o s).1
Sound-issue_after_update users coupons o s =
    closed-issue_after_update Sound Sound-refl Sound-trans o
      (λ k m t. Sound-create_with_quantity k o.user_id (issue_of m o) t) users coupons s
