-- ===== src/CouponHistories/Usage/Laws.antt =====
-- How `useCoupon` and `cancelCoupon` answer.
use mathlib.Core.Option
use lif_low_backend.Prelude.{
  ℕ, ◌≡◌, ◌≢◌, refl, sym, ap, ◌∙◌, Bool, true, not, some, List, [], ◌∷◌, ◌==◌, find, Bool-cases,
  inl, inr, not-false,
}
use lif_low_backend.Schema.{
  Coupon, CouponHistory, is_issued, ok, err, or_throw, p2025, bad_request, coupon_not_issued,
  coupon_inactive, throw_if, ok-injective, >>=-eq-ok, throw_if-eq-ok, or_throw-eq-ok,
}
use lif_low_backend.Coupons.{set_history}
use lif_low_backend.CouponHistories.{find_one, update_one, mark_cancelled}
use lif_low_backend.CouponHistories.Usage.{
  coupon_of_history, to_coupon_info, validate_coupon_usage, UseCoupon, use_coupon, cancel_coupon,
}

abbrev has_id : ℕ → CouponHistory → Bool
has_id id h = h.id == id

find-set_history :
    (id : ℕ) (f : CouponHistory → CouponHistory) (hs : List CouponHistory) {h : CouponHistory}
    → ((g : CouponHistory) → (f g).id ≡ g.id)
    → find (has_id id) hs ≡ some h
    → find (has_id id) (set_history id f hs) ≡ some (f h)
unfolding set_history
find-set_history id f [] keeps e = cc
find-set_history id f (g ∷ hs) keeps e = elim (Bool-cases (g.id == id)) [
  | inl same ↦
      let kept : ((f g).id == id) ≡ true = ap (λ i. i == id) (keeps g) ∙ same in
      rw (same, kept) (ap (Option.map f) (rw same at e))
  | inr other ↦ rw (other, other) (find-set_history id f hs keeps (rw other at e))
]

validate_coupon_usage_refuses :
    (now purchase : ℕ) (h : CouponHistory) (c : Coupon)
    → is_issued h.status ≡ true
    → validate_coupon_usage now purchase h (to_coupon_info c) ≡ err (bad_request coupon_inactive)
unfolding validate_coupon_usage to_coupon_info
validate_coupon_usage_refuses now purchase h c e = rw e refl

-- A history that a user holds, of a coupon that is there, cannot be used: the coupon passes for
-- inactive, whether it is active or not.
pub use_coupon_refuses :
    (share : ℕ → ℕ → ℕ) (coupons : List Coupon) (now : ℕ) (u : UseCoupon) (hs : List CouponHistory)
    (h : CouponHistory) (c : Coupon)
    → find (λ (g : CouponHistory). g.id == u.history_id) hs ≡ some h
    → coupon_of_history coupons h ≡ some c
    → is_issued h.status ≡ true
    → use_coupon share coupons now u hs ≡ err (bad_request coupon_inactive)
unfolding use_coupon find_one
use_coupon_refuses share coupons now u hs h c found coupon issued =
    rw (found, coupon, validate_coupon_usage_refuses now u.purchase_amount h c issued) refl

validate_coupon_usage-ne-ok :
    (now purchase : ℕ) (h : CouponHistory) (c : Coupon)
    → validate_coupon_usage now purchase h (to_coupon_info c) ≢ ok tt
unfolding validate_coupon_usage to_coupon_info
validate_coupon_usage-ne-ok now purchase h c e = elim (Bool-cases (is_issued h.status)) [
  | inl issued ↦ cc (rw issued at e)
  | inr other ↦ cc (rw other at e)
]

-- No call of `useCoupon` ever succeeds, whatever the history, the coupon and the moment.
pub use_coupon_fails :
    (share : ℕ → ℕ → ℕ) (coupons : List Coupon) (now : ℕ) (u : UseCoupon) (hs : List CouponHistory)
    (r : ℕ × ℕ × List CouponHistory)
    → use_coupon share coupons now u hs ≢ ok r
unfolding use_coupon
use_coupon_fails share coupons now u hs r e =
    let (h, found, rest) = >>=-eq-ok (find_one u.history_id hs) _ e in
    let (c, coupon, rest') = >>=-eq-ok (or_throw (coupon_of_history coupons h) _) _ rest in
    let (_, checked, _) =
      >>=-eq-ok (validate_coupon_usage now u.purchase_amount h (to_coupon_info c)) _ rest' in
    validate_coupon_usage-ne-ok now u.purchase_amount h c checked

pub cancel_coupon-eq-ok :
    (id now : ℕ) (hs : List CouponHistory) {hs' : List CouponHistory}
    → cancel_coupon id now hs ≡ ok hs'
    → (h : CouponHistory) × (find (has_id id) hs ≡ some h)
      × (is_issued h.status ≡ true)
      × (hs' ≡ set_history id (mark_cancelled now) hs)
unfolding cancel_coupon find_one update_one
cancel_coupon-eq-ok id now hs h =
    let (g, found, rest) = >>=-eq-ok (find_one id hs) _ h in
    let (_, checked, made) = >>=-eq-ok (throw_if (not (is_issued g.status)) _) _ rest in
    let (_, found', set) = >>=-eq-ok (or_throw (find (has_id id) hs) p2025) _ made in
    (g, or_throw-eq-ok _ _ found, not-false _ (throw_if-eq-ok _ _ checked), sym (ok-injective set))

-- After a cancellation the history cannot be cancelled again, and it is no longer issued.
pub cancel_coupon-again :
    (id now later : ℕ) (hs : List CouponHistory) {hs' : List CouponHistory}
    → cancel_coupon id now hs ≡ ok hs'
    → cancel_coupon id later hs' ≡ err (bad_request coupon_not_issued)
unfolding cancel_coupon find_one
cancel_coupon-again id now later hs h =
    let (g, found, issued, made) = cancel_coupon-eq-ok id now hs h in
    let found' = find-set_history id (mark_cancelled now) hs (λ _. refl) found in
    rw (made, found') refl
