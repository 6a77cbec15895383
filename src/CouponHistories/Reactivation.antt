-- ===== src/CouponHistories/Reactivation.antt =====
-- Reactivating a coupon undoes its expiry.
use lif_low_backend.Prelude.{
  ℕ, ◌≡◌, refl, sym, ap, Bool, true, false, not, ◌&&◌, List, [], ◌∷◌, arith, All, if◌then◌else◌,
  ◌∙◌, Bool-cases, inl, inr,
}
use lif_low_backend.Schema.{CouponHistory, CouponHistoryStatus, is_issued, is_expired}
use lif_low_backend.CouponHistories.{
  is_of, is_issued_of, is_running, update_where, with_status, expire_all_by_coupon_id,
  reactivate_expired_by_coupon_id,
}

-- The history can come back: none of the coupon's has expired yet, and those that are issued are
-- in their period.
abbrev pub CanReturn : ℕ → ℕ → CouponHistory → Type 0
CanReturn k now h =
    (is_of k h && is_expired h.status ≡ false)
    × (is_issued_of k h && not (is_running now h) ≡ false)

issued_status : (s : CouponHistoryStatus) → is_issued s ≡ true → s ≡ CouponHistoryStatus.issued
issued_status CouponHistoryStatus.issued e = refl
issued_status CouponHistoryStatus.used e = cc
issued_status CouponHistoryStatus.expired e = cc
issued_status CouponHistoryStatus.cancelled e = cc

expired_row : ℕ → CouponHistory → CouponHistory
expired_row k h = if is_issued_of k h then with_status CouponHistoryStatus.expired h else h

is_back : ℕ → ℕ → CouponHistory → Bool
is_back k now h = is_of k h && (is_expired h.status && is_running now h)

row_back :
    (k now : ℕ) (h : CouponHistory)
    → CanReturn k now h
    → (if is_back k now (expired_row k h)
        then with_status CouponHistoryStatus.issued (expired_row k h)
        else expired_row k h)
      ≡ h
unfolding expired_row is_back
row_back k now h can = elim (Bool-cases (is_issued_of k h)) [
  | inl e ↦
      let kind : is_of k h ≡ true = ground (arith, e) in
      let status : is_issued h.status ≡ true = ground (arith, e) in
      let running : is_running now h ≡ true = ground (arith, e, can.1) in
      rw (e, kind, running) (ap (λ s. with_status s h) (sym (issued_status h.status status)))
  | inr e ↦
      let stays : is_of k h && (is_expired h.status && is_running now h) ≡ false =
        ground (arith, can.0) in
      rw (e, stays) refl
]

-- A coupon that is deactivated and activated again leaves every history as it was, if none of the
-- coupon's histories had expired and those that were issued are in their period.
pub reactivate-expire :
    (k now : ℕ) (hs : List CouponHistory)
    → All (CanReturn k now) hs
    → reactivate_expired_by_coupon_id k now (expire_all_by_coupon_id k hs).1 ≡ hs
unfolding reactivate_expired_by_coupon_id expire_all_by_coupon_id update_where expired_row is_back
reactivate-expire k now [] all = refl
reactivate-expire k now (h ∷ hs) all =
    ap
      (λ g.
        g
        ∷ update_where (is_back k now) (with_status CouponHistoryStatus.issued)
            (update_where (is_issued_of k) (with_status CouponHistoryStatus.expired) hs))
      (row_back k now h all.0)
    ∙ ap (λ gs. h ∷ gs) (reactivate-expire k now hs all.1)
