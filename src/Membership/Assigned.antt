-- ===== src/Membership/Assigned.antt =====
-- What the assignment of a membership level to one user does
-- (src/modules/memberships/cronjob/membership-cronjob.service.ts).
use lif_low_backend.Prelude.{
  ℕ, ◌≡◌, refl, true, false, ◌&&◌, none, some, ltb, ◌==◌, inl, inr, arith, Bool-cases, Option-cases,
  ==_iff,
}
use lif_low_backend.Schema.{User, UserMembership, Membership, Table, put, ok}
use lif_low_backend.Membership.{Clock, membership_of, with_level}
use lif_low_backend.Membership.Recalculation.{
  Action, unchanged, is_normal, existing_membership, is_still_active, action_of, assign_tier,
  upsert_membership,
}

-- A membership of the tier, with the status normal, that has not ended.
abbrev pub IsOfTier : Clock → Membership → UserMembership → Type 0
IsOfTier clock tier m =
    (m.membership_id ≡ tier.id) × (ltb clock.now m.end_date ≡ true) × (is_normal m ≡ true)

abbrev pub IsElsewhere {ℓ} : {V : Type ℓ} → ℕ → Table V → Table V → Type ℓ
IsElsewhere k t t' = (j : ℕ) → (j == k) ≡ false → t' j ≡ t j

still_active-IsOfTier :
    (clock : Clock) (tier : Membership) (k : ℕ) (t : Table UserMembership)
    → is_still_active clock tier (existing_membership k t) ≡ true
    → (m : UserMembership) × (t k ≡ some m) × IsOfTier clock tier m
still_active-IsOfTier clock tier k t h = elim (Option-cases (t k)) [
  | inl e ↦ absurd (no_membership e)
  | inr (m, e) ↦ elim (Bool-cases (is_normal m)) [
    | inl normal ↦
        (m, e, (ground (arith, active m e normal), ground (arith, active m e normal), normal))
    | inr other ↦ absurd (not_normal m e other)
  ]
]
  where
    no_membership : t k ≡ none → ⊥
    no_membership e = cc (rw (e, existing_membership) at h)

    not_normal : (m : UserMembership) → t k ≡ some m → is_normal m ≡ false → ⊥
    not_normal m e other = cc (rw (e, other, existing_membership) at h)

    active :
        (m : UserMembership)
        → t k ≡ some m
        → is_normal m ≡ true
        → (m.membership_id == tier.id && ltb clock.now m.end_date) ≡ true
    active m e normal = rw (e, normal, existing_membership) at h

-- A new membership of the tier.
membership_of-IsOfTier :
    (clock : Clock) (tier : Membership)
    → ltb clock.now clock.one_year_from_now ≡ true
    → IsOfTier clock tier (membership_of clock tier)
membership_of-IsOfTier clock tier later = (refl, later, refl)

upsert_lem :
    (k : ℕ) (m : UserMembership) (users : Table User) (t : Table UserMembership) {u : User}
    → users k ≡ some u
    → upsert_membership k m (users, t) ≡ ok (users, put k m t)
upsert_lem k m users t there = elim (Option-cases (t k)) [
  | inl e ↦ rw (e, upsert_membership) (rw there refl)
  | inr (old, e) ↦ rw (e, upsert_membership) refl
]

-- The membership table after the tier was assigned.
abbrev pub IsAssigned :
    Clock → Membership → ℕ → Table UserMembership → Table UserMembership → Type 0
IsAssigned clock tier k t t' =
    ((m : UserMembership) × (t' k ≡ some m) × IsOfTier clock tier m) × IsElsewhere k t t'

pub assign_tier_lem :
    (clock : Clock) (k : ℕ) (tier : Membership) (users : Table User) (t : Table UserMembership)
    {u : User}
    → ltb clock.now clock.one_year_from_now ≡ true
    → users k ≡ some u
    → (t' : Table UserMembership) × (a : Action) × (assign_tier clock k tier (users, t)
        ≡ ok ((put k (with_level tier u) users, t'), a))
      × IsAssigned clock tier k t t'
unfolding assign_tier
assign_tier_lem clock k tier users t later there =
    elim (Bool-cases (is_still_active clock tier (existing_membership k t))) [
      | inl active ↦ (
        t,
        unchanged,
        rw active (rw there refl),
        (still_active-IsOfTier clock tier k t active, λ j h. refl),
      )
      | inr inactive ↦
          let m = membership_of clock tier in
          (
            put k m t,
            action_of tier (existing_membership k t),
            rw (inactive, upsert_lem k m users t there) (rw there refl),
            (
              (m, rw ((==_iff k k).1 refl) refl, membership_of-IsOfTier clock tier later),
              λ j h. rw h refl,
            ),
          )
    ]
