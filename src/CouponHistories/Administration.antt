-- ===== src/CouponHistories/Administration.antt =====
-- The administration of coupons where it changes histories: `update` in
-- src/modules/coupons/coupons.service.ts, with the calls of
-- src/modules/coupons/repositories/coupon.repository.ts that it makes. The name and the image of a
-- coupon are left out.
use text.Mathlib.Text.{◌==◌ as str_eq}
use lif_low_backend.Prelude.{
  ℕ, ◌≡◌, refl, sym, ap, ◌∙◌, String, Bool, true, false, not, ◌&&◌, Option, none, some, List, [],
  ◌∷◌, ◌==◌, leb, any, if◌then◌else◌, get_or, ==_iff, Bool-cases, inl, inr,
}
use lif_low_backend.Schema.{
  User, Table, Coupon, CouponType, percent, amount, free_shipping, Result, ok, ◌>>=◌, ◌>>◌,
  or_throw, throw_if, not_found, bad_request, conflict, coupon_not_found, coupon_code_exists,
  discount_rate_required, discount_amount_required, discount_amount_not_allowed,
  discount_rate_not_allowed, start_not_before_end, >>=-eq-ok, ok-injective,
}
use lif_low_backend.Membership.{is_truthy}
use lif_low_backend.Coupons.{Histories}
use lif_low_backend.Coupons.Used.{held}
use lif_low_backend.CouponHistories.{expire_all_by_coupon_id, reactivate_expired_by_coupon_id}
use lif_low_backend.CouponHistories.Held.{held-expire_all_by_coupon_id}
use lif_low_backend.CouponHistories.Issuance.{
  find_coupon, no_period, issue_coupon_to_users_by_target_grades,
}

-- `UpdateCouponDto`: what the request gives. A rate, an amount or a
-- date may be given as null.
pub record UpdateCoupon : Type 0 where
  pub code : Option String
  pub coupon_type : Option CouponType
  pub discount_rate : Option (Option ℕ)
  pub discount_amount : Option (Option ℕ)
  pub max_discount_amount : Option (Option ℕ)
  pub min_purchase_amount : Option ℕ
  pub is_active : Option Bool
  pub is_auto_issue : Option Bool
  pub target_grades : Option (List String)
  pub start_date : Option (Option ℕ)
  pub end_date : Option (Option ℕ)

-- `codeExists`, for another coupon.
abbrev pub code_exists : ℕ → Option String → List Coupon → Bool
code_exists id none = λ _. false
code_exists id (some code) = any λ c. str_eq c.code code && not (c.id == id)

-- `if (code)`
abbrev pub is_given_text : Option String → Bool
is_given_text = is_truthy

-- A number that is missing, null or 0.
abbrev pub is_falsy : Option ℕ → Bool
is_falsy none = true
is_falsy (some n) = n == 0

abbrev pub is_there {ℓ} : {A : Type ℓ} → Option A → Bool
is_there none = false
is_there (some _) = true

-- The checks of the discount, by the type that the coupon will have.
unfoldable pub check_discount : UpdateCoupon → Coupon → Result (Unit {0})
check_discount u c = elim (get_or u.coupon_type c.coupon_type) [
  | percent ↦
      throw_if (is_falsy (get_or u.discount_rate c.discount_rate))
        (bad_request discount_rate_required)
      >> throw_if (is_there u.discount_amount) (bad_request discount_amount_not_allowed)
  | amount ↦
      throw_if (is_falsy (get_or u.discount_amount c.discount_amount))
        (bad_request discount_amount_required)
      >> throw_if (is_there u.discount_rate) (bad_request discount_rate_not_allowed)
  | free_shipping ↦ ok tt
]

abbrev pub is_disordered : Option ℕ → Option ℕ → Bool
is_disordered none _ = false
is_disordered (some s) none = false
is_disordered (some s) (some e) = leb e s

abbrev pub with_coupon_update : UpdateCoupon → Coupon → Coupon
with_coupon_update u c = record c {
  code = get_or u.code c.code;
  coupon_type = get_or u.coupon_type c.coupon_type;
  discount_rate = get_or u.discount_rate c.discount_rate;
  discount_amount = get_or u.discount_amount c.discount_amount;
  max_discount_amount = get_or u.max_discount_amount c.max_discount_amount;
  min_purchase_amount = get_or u.min_purchase_amount c.min_purchase_amount;
  is_active = get_or u.is_active c.is_active;
  is_auto_issue = get_or u.is_auto_issue c.is_auto_issue;
  target_grades = get_or u.target_grades c.target_grades;
  start_date = get_or u.start_date c.start_date;
  end_date = get_or u.end_date c.end_date;
}

unfoldable pub set_coupon : ℕ → (Coupon → Coupon) → List Coupon → List Coupon
set_coupon id f [] = []
set_coupon id f (c ∷ cs) = if c.id == id then f c ∷ cs else c ∷ set_coupon id f cs

unfoldable pub check_update : ℕ → UpdateCoupon → List Coupon → Result Coupon
check_update id u coupons =
    throw_if (is_given_text u.code && code_exists id u.code coupons) (conflict coupon_code_exists)
    >> (or_throw (find_coupon id coupons) (not_found coupon_not_found) >>= λ c.
        check_discount u c
        >> throw_if
            (is_disordered (get_or u.start_date none) (get_or u.end_date none)
              && not c.is_permanent)
            (bad_request start_not_before_end)
        >> ok c)

-- The histories of a coupon that is issued anew by every update while it is automatic.
unfoldable pub issue_on_update :
    ℕ → UpdateCoupon → Coupon → List ℕ → Table User → List Coupon → ℕ → Histories → Result Histories
issue_on_update id u c ids users coupons now s =
    if get_or u.is_auto_issue c.is_auto_issue
    then (issue_coupon_to_users_by_target_grades id (get_or u.target_grades c.target_grades)
          no_period ids users coupons now s
        >>= λ r. ok r.1)
    else ok s

abbrev pub is_no : Option Bool → Bool
is_no none = false
is_no (some b) = not b

abbrev pub is_yes : Option Bool → Bool
is_yes none = false
is_yes (some b) = b

abbrev pub expired_on_update : ℕ → UpdateCoupon → Histories → Histories
expired_on_update id u (hs, last) =
    if is_no u.is_active then ((expire_all_by_coupon_id id hs).1, last) else (hs, last)

abbrev pub revived_on_update : ℕ → UpdateCoupon → Coupon → ℕ → Histories → Histories
revived_on_update id u c now (hs, last) =
    if not c.is_active && is_yes u.is_active
    then (reactivate_expired_by_coupon_id id now hs, last)
    else (hs, last)

-- `update`
unfoldable pub update_coupon :
    ℕ
    → UpdateCoupon
    → List ℕ
    → Table User
    → ℕ
    → List Coupon
    → Histories
    → Result (List Coupon × Histories)
update_coupon id u ids users now coupons s = check_update id u coupons >>= λ c.
    issue_on_update id u c ids users coupons now s >>= λ s'. ok (
      set_coupon id (with_coupon_update u) coupons,
      revived_on_update id u c now (expired_on_update id u s'),
    )

nothing_held :
    (id v : ℕ) (u : UpdateCoupon) (c : Coupon) (now : ℕ) (s : Histories)
    → u.is_active ≡ some false
    → held id v (revived_on_update id u c now (expired_on_update id u s)).0 ≡ 0
nothing_held id v u c now (hs, last) inactive =
    let gone : held id v (expire_all_by_coupon_id id hs).1 ≡ 0 =
      held-expire_all_by_coupon_id id v id hs ∙ rw ((==_iff id id).1 refl) refl in
    elim (Bool-cases c.is_active) [ inl e ↦ rw (inactive, e) gone | inr e ↦ rw (inactive, e) gone ]

-- After an update that deactivates a coupon nobody holds any of it, even if the update has just
-- issued it.
pub update_coupon-held :
    (id v : ℕ) (u : UpdateCoupon) (ids : List ℕ) (users : Table User) (now : ℕ)
    (coupons : List Coupon) (s : Histories) {coupons' : List Coupon} {s' : Histories}
    → u.is_active ≡ some false
    → update_coupon id u ids users now coupons s ≡ ok (coupons', s')
    → held id v s'.0 ≡ 0
unfolding update_coupon
update_coupon-held id v u ids users now coupons s inactive h =
    let (c, _, h1) = >>=-eq-ok (check_update id u coupons) _ h in
    let (t, _, made) = >>=-eq-ok (issue_on_update id u c ids users coupons now s) _ h1 in
    let q = ap (λ (r : List Coupon × Histories). held id v r.1.0) (ok-injective made) in
    sym q ∙ nothing_held id v u c now t inactive
