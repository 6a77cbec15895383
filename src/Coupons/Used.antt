-- ===== src/Coupons/Used.antt =====
-- What a use does to the coupons that a user still holds.
use lif_low_backend.Prelude.{
  ℕ, ◌+◌, ◌≡◌, ◌≢◌, refl, true, none, some, List, [], ◌∷◌, arith, ltb, leb, ◌==◌, if◌then◌else◌,
  sum_by, All, Bool-cases, Option-cases, inl, inr, Listed, Listed-All, sym, ap, ◌∙◌, ==_iff,
}
use mathlib.Core.Option.{some-injective}
use lif_low_backend.Schema.{CouponHistory}
use lif_low_backend.Coupons.{
  is_issued_to, oldest_issued, set_history, Use, mark_used, lower_quantity, use_history,
}

-- How many of a coupon a user holds.
abbrev pub held_in : ℕ → ℕ → CouponHistory → ℕ
held_in k u h = if is_issued_to k u h then h.quantity else 0

abbrev pub held : ℕ → ℕ → List CouponHistory → ℕ
held k u = sum_by (held_in k u)

-- The identifiers are distinct, as the primary key of the table promises.
abbrev pub IsDistinct : List CouponHistory → Type 0
IsDistinct [] = Unit
IsDistinct (h ∷ hs) = All (λ g. g.id ≢ h.id) hs × IsDistinct hs

pub oldest_issued-Listed :
    (k u : ℕ) (hs : List CouponHistory) {h : CouponHistory}
    → oldest_issued k u hs ≡ some h
    → Listed h hs × (is_issued_to k u h ≡ true)
unfolding oldest_issued
oldest_issued-Listed k u [] e = cc
oldest_issued-Listed k u (x ∷ hs) {h} e = elim (Bool-cases (is_issued_to k u x)) [
  | inl mine ↦ elim (Option-cases (oldest_issued k u hs)) [
    | inl f ↦
        let q : x ≡ h = some-injective _ _ (rw f at (rw mine at e)) in (inl (sym q), rw (← q) mine)
    | inr (g, f) ↦ elim (Bool-cases (leb x.issued_at g.issued_at)) [
      | inl older ↦
          let q : x ≡ h = some-injective _ _ (rw older at (rw f at (rw mine at e))) in
          (inl (sym q), rw (← q) mine)
      | inr newer ↦
          let q : g ≡ h = some-injective _ _ (rw newer at (rw f at (rw mine at e))) in
          let (l, m) = oldest_issued-Listed k u hs (f ∙ ap some q) in (inr l, m)
    ]
  ]
  | inr other ↦ let (l, m) = oldest_issued-Listed k u hs (rw other at e) in (inr l, m)
]

pub held-set_history :
    (j v : ℕ) (f : CouponHistory → CouponHistory) (hs : List CouponHistory) (h : CouponHistory)
    → IsDistinct hs
    → Listed h hs
    → held j v (set_history h.id f hs) + held_in j v h ≡ held j v hs + held_in j v (f h)
unfolding set_history
held-set_history j v f [] h d l = elim l [ ]
held-set_history j v f (x ∷ hs) h d (inl q) = rw (q, (==_iff x.id x.id).1 refl) (omega arith)
held-set_history j v f (x ∷ hs) h d (inr q) = elim (Bool-cases (x.id == h.id)) [
  | inl same ↦ absurd (Listed-All h (λ g. g.id ≢ x.id) hs q d.0 (sym ((==_iff x.id h.id).0 same)))
  | inr other ↦ rw other (omega (arith, held-set_history j v f hs h d.1 q))
]

-- How many of a coupon one use takes from those that a user holds: as many as the request says, or
-- all of the oldest history if that has no more.
abbrev pub taken : ℕ → ℕ → ℕ → List CouponHistory → ℕ
taken k u quantity hs = elim (oldest_issued k u hs) [
  | none ↦ 0
  | some h ↦ if ltb quantity h.quantity then quantity else h.quantity
]

-- A use takes just that many from the user's coupons of this kind.
pub held-use_history :
    (k quantity last : ℕ) (u : Use) (hs : List CouponHistory)
    → IsDistinct hs
    → held k u.user_id (use_history k quantity u (hs, last)).0 + taken k u.user_id quantity hs
      ≡ held k u.user_id hs
unfolding use_history
held-use_history k quantity last u hs d = elim (Option-cases (oldest_issued k u.user_id hs)) [
  | inl e ↦ rw (e, use_history) (ground arith)
  | inr (h, e) ↦
      let (l, m) = oldest_issued-Listed k u.user_id hs e in
      elim (Bool-cases (ltb quantity h.quantity)) [
        | inl part ↦
            rw (e, part, use_history)
              (ground (arith, held-set_history k u.user_id (lower_quantity quantity) hs h d l))
        | inr whole ↦
            rw (e, whole, use_history)
              (ground (arith, held-set_history k u.user_id (mark_used u) hs h d l))
      ]
]
