-- ===== src/CouponHistories/Levels/Special.antt =====
-- What a membership level brings: the free shipping of a level, and the special benefit once.
use lif_low_backend.Prelude.{
  ℕ, suc, ◌+◌, ◌≤◌, ◌≡◌, refl, ap, sym, subst, ◌∙◌, ==_iff, Listed, Listed-All, true, false, some,
  String, List, [], ◌∷◌, arith, ◌==◌, Bool-cases, Option-cases, inl, inr,
}
use lif_low_backend.Schema.{User, Table, Coupon, CouponHistory}
use lif_low_backend.Coupons.{Histories}
use lif_low_backend.Coupons.Used.{held}
use lif_low_backend.CouponHistories.{Issue, create_with_quantity, exists_by_user_and_coupon}
use lif_low_backend.CouponHistories.Sound.{IsFresh}
use lif_low_backend.CouponHistories.Held.{given, held-create_with_quantity}
use lif_low_backend.CouponHistories.Levels.{
  Occasion, level_of, issue_of, issue_of_code, find_by_code, free_shipping_count, is_lv5,
  issue_free_shipping, issue_special_benefit,
}

-- A user of a level that has free shipping gets as many coupons for it as the level says, and the
-- answer counts one history, if the coupon is there and active.
pub issue_free_shipping-held :
    (users : Table User) (coupons : List Coupon) (o : Occasion) (s : Histories) {level : String}
    {c : Coupon}
    → level_of users o ≡ some level
    → (free_shipping_count level == 0) ≡ false
    → find_by_code "FREE_SHIPPING" coupons ≡ some c
    → c.is_active ≡ true
    → ((issue_free_shipping users coupons o s).0 ≡ 1)
      × ((j v : ℕ)
          → held j v (issue_free_shipping users coupons o s).1.0
            ≡ held j v s.0 + given j v c.id (free_shipping_count level) (o.user_id ∷ []))
unfolding issue_free_shipping issue_of_code
issue_free_shipping-held users coupons o s {level} {c} at_level count found active = (
  rw (at_level, count, found, active, issue_free_shipping, issue_of_code) refl,
  λ j v.
      rw (at_level, count, found, active, issue_free_shipping, issue_of_code)
        (held-create_with_quantity j v c.id o.user_id (issue_of (free_shipping_count level) o) s),
)

zero_one : ◌≡◌ {A = ℕ} 0 1 → ⊥
zero_one h = omega (arith, h)

issued_special :
    (users : Table User) (coupons : List Coupon) (o : Occasion) (s : Histories)
    → (issue_special_benefit users coupons o s).0 ≡ 1
    → (c : Coupon) × (find_by_code "SPECIAL_BENEFIT" coupons ≡ some c)
      × (c.is_active ≡ true)
      × ((issue_special_benefit users coupons o s).1
          ≡ create_with_quantity c.id o.user_id (issue_of 1 o) s)
unfolding issue_special_benefit
issued_special users coupons o s h = elim (Bool-cases (is_lv5 (level_of users o))) [
  | inr l ↦ absurd (zero_one (rw l at h))
  | inl l ↦ elim (Option-cases (find_by_code "SPECIAL_BENEFIT" coupons)) [
    | inl e ↦ absurd (zero_one (rw e at (rw l at h)))
    | inr (c, e) ↦ elim (Bool-cases c.is_active) [
      | inr a ↦ absurd (zero_one (rw a at (rw e at (rw l at h))))
      | inl a ↦ elim (Bool-cases (exists_by_user_and_coupon o.user_id c.id s.0)) [
        | inl x ↦ absurd (zero_one (rw x at (rw a at (rw e at (rw l at h)))))
        | inr x ↦ (c, e, a, rw (l, e, a, x, issue_special_benefit) refl)
      ]
    ]
  ]
]

not_issued :
    (users : Table User) (coupons : List Coupon) (o : Occasion) (s : Histories) (c : Coupon)
    → find_by_code "SPECIAL_BENEFIT" coupons ≡ some c
    → c.is_active ≡ true
    → exists_by_user_and_coupon o.user_id c.id s.0 ≡ true
    → issue_special_benefit users coupons o s ≡ (0, s)
unfolding issue_special_benefit
not_issued users coupons o s c found active there = elim (Bool-cases (is_lv5 (level_of users o))) [
  | inl l ↦ rw (l, found, active, there) refl
  | inr l ↦ rw l refl
]

-- A history of the user and the coupon.
exists-Listed :
    (k u : ℕ) (g : CouponHistory) (hs : List CouponHistory)
    → Listed g hs
    → g.user_id ≡ u
    → g.coupon_id ≡ some k
    → exists_by_user_and_coupon u k hs ≡ true
unfolding exists_by_user_and_coupon
exists-Listed k u g [] l e f = elim l [ ]
exists-Listed k u g (x ∷ hs) (inl q) e f =
    let user : x.user_id ≡ u = ap (λ (y : CouponHistory). y.user_id) (sym q) ∙ e in
    let kind : x.coupon_id ≡ some k = ap (λ (y : CouponHistory). y.coupon_id) (sym q) ∙ f in
    rw (user, kind, (==_iff u u).1 refl, (==_iff k k).1 refl) refl
exists-Listed k u g (x ∷ hs) (inr l) e f =
    let rest = exists-Listed k u g hs l e f in rw rest (ground arith)

-- The row with the new identifier is the one that was made.
the_new_one :
    (k u : ℕ) (i : Issue) (s : Histories) (h : CouponHistory)
    → IsFresh s
    → Listed h (create_with_quantity k u i s).0
    → h.id ≡ suc s.1
    → (h.user_id ≡ u) × (h.coupon_id ≡ some k)
unfolding create_with_quantity
the_new_one k u i s h f (inl q) e =
    (ap (λ (x : CouponHistory). x.user_id) q, ap (λ (x : CouponHistory). x.coupon_id) q)
the_new_one k u i s h f (inr l) e =
    absurd (omega (arith, e, Listed-All h (λ g. g.id ≤ s.1) s.0 l f.1))

-- After a call that issued the special benefit, a call for the same user on any later table issues
-- nothing and changes nothing, as long as a history `g` of the user and the coupon of the one that
-- was made, `h`, is in the table, in whatever status, and whatever the membership and the occasion
-- are then. The coupons are the same, and the identifiers were distinct at the start. (The nightly
-- work deletes a history after its last day, and nothing is stated of a table without one.)
pub issue_special_benefit-again :
    (users users' : Table User) (coupons : List Coupon) (o o' : Occasion) (s later : Histories)
    (h g : CouponHistory)
    → IsFresh s
    → o'.user_id ≡ o.user_id
    → (issue_special_benefit users coupons o s).0 ≡ 1
    → Listed h (issue_special_benefit users coupons o s).1.0
    → h.id ≡ suc s.1
    → Listed g later.0
    → g.user_id ≡ h.user_id
    → g.coupon_id ≡ h.coupon_id
    → issue_special_benefit users' coupons o' later ≡ (0, later)
issue_special_benefit-again users users' coupons o o' s later h g fresh same issued there new here
      user kind =
    let (c, found, active, made) = issued_special users coupons o s issued in
    let (his, of_c) =
      the_new_one c.id o.user_id (issue_of 1 o) s h fresh
        (subst (λ (t : Histories). Listed h t.0) made there) new in
    not_issued users' coupons o' later c found active
      (exists-Listed c.id o'.user_id g later.0 here (user ∙ his ∙ sym same) (kind ∙ of_c))
