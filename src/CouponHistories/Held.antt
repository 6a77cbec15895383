-- ===== src/CouponHistories/Held.antt =====
-- What the operations on the table do to the number of coupons that a user holds.
use lif_low_backend.Prelude.{
  ℕ, suc, ◌+◌, ◌≤◌, ◌≡◌, refl, Bool, true, List, [], ◌∷◌, arith, ◌==◌, if◌then◌else◌, sum_by,
  filter, Bool-cases, inl, inr,
}
use lif_low_backend.Schema.{CouponHistory}
use lif_low_backend.Coupons.{Histories}
use lif_low_backend.Coupons.Used.{held_in, held}
use lif_low_backend.CouponHistories.{
  Issue, issued_history, create_many, create_with_quantity, update_where, expire_all_by_coupon_id,
}

-- How many coupons of kind `j` a user `v` gets when each of `us` gets `q` of kind `k`.
abbrev pub given : ℕ → ℕ → ℕ → ℕ → List ℕ → ℕ
given j v k q us = if k == j then sum_by (λ u. if u == v then q else 0) us else 0

pub held-create_many :
    (j v k : ℕ) (i : Issue) (us : List ℕ) (s : Histories)
    → held j v (create_many k i us s).0 ≡ held j v s.0 + given j v k i.quantity us
unfolding create_many
held-create_many j v k i [] s = ground arith
held-create_many j v k i (u ∷ us) (hs, last) =
    let rest = held-create_many j v k i us (issued_history (suc last) k u i ∷ hs, suc last) in
    elim (Bool-cases (k == j)) [
      | inl same ↦ elim (Bool-cases (u == v)) [
        | inl mine ↦ ground (arith, rest)
        | inr other ↦ ground (arith, rest)
      ]
      | inr other ↦ ground (arith, rest)
    ]

pub held-create_with_quantity :
    (j v k u : ℕ) (i : Issue) (s : Histories)
    → held j v (create_with_quantity k u i s).0 ≡ held j v s.0 + given j v k i.quantity (u ∷ [])
unfolding create_with_quantity
held-create_with_quantity j v k u i (hs, last) = ground arith

-- Rows that count for as much after a change as before it.
pub held-update_where :
    (p : CouponHistory → Bool) (f : CouponHistory → CouponHistory) (j v : ℕ)
    → ((h : CouponHistory) → p h ≡ true → held_in j v (f h) ≡ held_in j v h)
    → (hs : List CouponHistory) → held j v (update_where p f hs) ≡ held j v hs
unfolding update_where
held-update_where p f j v same [] = refl
held-update_where p f j v same (h ∷ hs) = elim (Bool-cases (p h)) [
  | inl e ↦ rw (e, same h e, held-update_where p f j v same hs) refl
  | inr e ↦ rw (e, held-update_where p f j v same hs) refl
]

pub held-update_where_le :
    (p : CouponHistory → Bool) (f : CouponHistory → CouponHistory) (j v : ℕ)
    → ((h : CouponHistory) → p h ≡ true → held_in j v (f h) ≤ held_in j v h)
    → (hs : List CouponHistory) → held j v (update_where p f hs) ≤ held j v hs
unfolding update_where
held-update_where_le p f j v less [] = ground arith
held-update_where_le p f j v less (h ∷ hs) = elim (Bool-cases (p h)) [
  | inl e ↦ rw e (omega (arith, less h e, held-update_where_le p f j v less hs))
  | inr e ↦ rw e (omega (arith, held-update_where_le p f j v less hs))
]

pub held-update_where_ge :
    (p : CouponHistory → Bool) (f : CouponHistory → CouponHistory) (j v : ℕ)
    → ((h : CouponHistory) → p h ≡ true → held_in j v h ≤ held_in j v (f h))
    → (hs : List CouponHistory) → held j v hs ≤ held j v (update_where p f hs)
unfolding update_where
held-update_where_ge p f j v more [] = ground arith
held-update_where_ge p f j v more (h ∷ hs) = elim (Bool-cases (p h)) [
  | inl e ↦ rw e (omega (arith, more h e, held-update_where_ge p f j v more hs))
  | inr e ↦ rw e (omega (arith, held-update_where_ge p f j v more hs))
]

pub held-filter :
    (p : CouponHistory → Bool) (j v : ℕ) (hs : List CouponHistory)
    → held j v (filter p hs) ≤ held j v hs
held-filter p j v [] = ground arith
held-filter p j v (h ∷ hs) = elim (Bool-cases (p h)) [
  | inl e ↦ rw e (omega (arith, held-filter p j v hs))
  | inr e ↦ rw e (omega (arith, held-filter p j v hs))
]

-- When a coupon expires, nobody holds it any more, and other coupons stay.
pub held-expire_all_by_coupon_id :
    (j v k : ℕ) (hs : List CouponHistory)
    → held j v (expire_all_by_coupon_id k hs).1 ≡ (if k == j then 0 else held j v hs)
unfolding expire_all_by_coupon_id update_where
held-expire_all_by_coupon_id j v k [] = ground arith
held-expire_all_by_coupon_id j v k (h ∷ hs) = ground (arith, held-expire_all_by_coupon_id j v k hs)
