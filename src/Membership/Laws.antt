-- ===== src/Membership/Laws.antt =====
-- Which tier the recalculation chooses.
use mathlib.Core.Option
use mathlib.Core.Option.{some-injective}
use native.Mathlib.Nat.{le_refl, le_trans}
use lif_low_backend.Prelude.{
  Listed, Listed-All, ℕ, ◌≤◌, ℤ, pos, ◌≤ℤ◌, leb_ℤ, true, ◌≡◌, ◌≢◌, refl, Option, none, some, List,
  [], ◌∷◌, arith, get_or, filter, Bool-cases, Option-cases, inl, inr, ◌⊎◌, ◌==◌, ◌∙◌, ==_iff,
}
use lif_low_backend.Schema.{User, UserMembership, Membership, Table, put}
use lif_low_backend.Membership.{
  Clock, is_valid_tier, price_of, by_min_price_desc, first_reached, last_tier, or_else,
  appropriate_tier, with_level, recalculate,
}
use lif_low_backend.Membership.Order.{IsDescending, Listed-valid, valid-IsDescending}

-- `u` is dearer than `t` only if the total does not reach it; and if the total reaches no tier,
-- `t` is one of the cheapest.
abbrev pub IsBest : ℤ → Membership → Membership → Type 0
IsBest total t u =
    ((pos (price_of t) ≤ℤ total) × (pos (price_of u) ≤ℤ total → price_of u ≤ price_of t))
    ⊎ ((¬ (pos (price_of u) ≤ℤ total)) × (price_of t ≤ price_of u))

first_reached_reached :
    (total : ℤ) (t : Membership) (tiers : List Membership)
    → first_reached total tiers ≡ some t
    → pos (price_of t) ≤ℤ total
unfolding first_reached
first_reached_reached total t [] e = cc
first_reached_reached total t (x ∷ tiers) e = ground (arith, first_reached_reached total t tiers)

first_reached-some :
    (total : ℤ) (t u : Membership) (tiers : List Membership)
    → IsDescending tiers
    → Listed u tiers
    → first_reached total tiers ≡ some t
    → (pos (price_of t) ≤ℤ total) × (pos (price_of u) ≤ℤ total → price_of u ≤ price_of t)
unfolding first_reached
first_reached-some total t u [] d l e = elim l [ ]
first_reached-some total t u (x ∷ tiers) d (inl q) e =
    elim (Bool-cases (leb_ℤ (pos (price_of x)) total)) [
      | inl reached ↦
          let same : x ≡ t = some-injective _ _ (rw reached at e) in
          rw (← same, q) (ground arith, λ _. le_refl (price_of x))
      | inr beyond ↦ rw q (ground (arith, first_reached_reached total t tiers), λ h. ground arith)
    ]
first_reached-some total t u (x ∷ tiers) d (inr q) e =
    elim (Bool-cases (leb_ℤ (pos (price_of x)) total)) [
      | inl reached ↦
          let same : x ≡ t = some-injective _ _ (rw reached at e) in
          rw (← same) (ground arith, λ _. Listed-All u (λ y. price_of y ≤ price_of x) tiers q d.0)
      | inr beyond ↦ first_reached-some total t u tiers d.1 q (rw beyond at e)
    ]

first_reached-none :
    (total : ℤ) (u : Membership) (tiers : List Membership)
    → Listed u tiers
    → first_reached total tiers ≡ none
    → ¬ (pos (price_of u) ≤ℤ total)
unfolding first_reached
first_reached-none total u [] l e = elim l [ ]
first_reached-none total u (x ∷ tiers) (inl q) e = rw q (ground arith)
first_reached-none total u (x ∷ tiers) (inr q) e =
    ground (arith, first_reached-none total u tiers q)

last_tier-lem :
    (t u : Membership) (tiers : List Membership)
    → IsDescending tiers
    → Listed u tiers
    → last_tier tiers ≡ some t
    → price_of t ≤ price_of u
unfolding last_tier
last_tier-lem t u [] d l e = elim l [ ]
last_tier-lem t u (x ∷ []) d (inl q) e = rw (q, ← some-injective _ _ e) (le_refl _)
last_tier-lem t u (x ∷ []) d (inr q) e = elim q [ ]
last_tier-lem t u (x ∷ y ∷ tiers) d (inl q) e =
    rw q (le_trans (last_tier-lem t y (y ∷ tiers) d.1 (inl refl) e) d.0.0)
last_tier-lem t u (x ∷ y ∷ tiers) d (inr q) e = last_tier-lem t u (y ∷ tiers) d.1 q e

last_tier-cons : (x : Membership) (tiers : List Membership) → last_tier (x ∷ tiers) ≢ none
unfolding last_tier
last_tier-cons x [] e = cc
last_tier-cons x (y ∷ tiers) e = last_tier-cons y tiers e

valid-IsBest :
    (total : ℤ) (t u : Membership) (tiers : List Membership)
    → IsDescending tiers
    → Listed u tiers
    → or_else (first_reached total tiers) (last_tier tiers) ≡ some t
    → IsBest total t u
valid-IsBest total t u tiers d l e = elim (Option-cases (first_reached total tiers)) [
  | inl none_reached ↦ inr (
    first_reached-none total u tiers l none_reached,
    last_tier-lem t u tiers d l (rw none_reached at e),
  )
  | inr (x, reached) ↦ inl (first_reached-some total t u tiers d l (reached ∙ (rw reached at e)))
]

-- The tier that is chosen is the best one that the total reaches: no valid tier that the total
-- reaches is dearer. If the total reaches no valid tier, it is a cheapest one. The order of the
-- rows in the table does not matter.
pub appropriate_tier_lem :
    (total : ℤ) (t u : Membership) (memberships : List Membership)
    → appropriate_tier total memberships ≡ some t
    → Listed u memberships
    → is_valid_tier u ≡ true
    → IsBest total t u
unfolding appropriate_tier
appropriate_tier_lem total t u memberships e l v =
    valid-IsBest total t u (filter is_valid_tier (by_min_price_desc memberships))
      (valid-IsDescending memberships) (Listed-valid u memberships l v) e

chosen_of_valid :
    (total : ℤ) (u : Membership) (tiers : List Membership)
    → Listed u tiers
    → (t : Membership) × (or_else (first_reached total tiers) (last_tier tiers) ≡ some t)
chosen_of_valid total u [] l = elim l [ ]
chosen_of_valid total u (x ∷ tiers) l = elim (Option-cases (first_reached total (x ∷ tiers))) [
  | inl e ↦ elim (Option-cases (last_tier (x ∷ tiers))) [
    | inl f ↦ absurd (last_tier-cons x tiers f)
    | inr (t, f) ↦ (t, rw (e, f))
  ]
  | inr (t, e) ↦ (t, rw e)
]

-- A tier is chosen as soon as the table holds a valid one.
pub appropriate_tier_total :
    (total : ℤ) (u : Membership) (memberships : List Membership)
    → Listed u memberships
    → is_valid_tier u ≡ true
    → (t : Membership) × (appropriate_tier total memberships ≡ some t)
unfolding appropriate_tier
appropriate_tier_total total u memberships l v =
    chosen_of_valid total u (filter is_valid_tier (by_min_price_desc memberships))
      (Listed-valid u memberships l v)

-- The three balances of a user.
abbrev pub balances : User → Option ℤ × Option ℤ × Option ℤ
balances u = (u.available_points, u.total_used_points, u.total_purchase_amount)

balances-put :
    (user_id k : ℕ) (tier : Membership) (users : Table User) {u : User}
    → users user_id ≡ some u
    → Option.map balances (put user_id (with_level tier u) users k) ≡ Option.map balances (users k)
balances-put user_id k tier users e = elim (Bool-cases (k == user_id)) [
  | inl same ↦ rw same (rw ((==_iff k user_id).0 same) (rw e))
  | inr other ↦ rw other
]

-- The recalculation touches no balance of any user.
pub recalculate-balances :
    (clock : Clock) (user_id k : ℕ) (memberships : List Membership) (users : Table User)
    (user_memberships : Table UserMembership)
    → Option.map balances ((recalculate clock user_id memberships (users, user_memberships)).0 k)
      ≡ Option.map balances (users k)
unfolding recalculate
recalculate-balances clock user_id k memberships users user_memberships =
    elim (Option-cases (users user_id)) [
      | inl e ↦ rw (e, recalculate)
      | inr (u, e) ↦
          elim (Option-cases
            (appropriate_tier (get_or u.total_purchase_amount (pos 0)) memberships)) [
              | inl f ↦ rw (e, f, recalculate)
              | inr (tier, f) ↦ rw (e, f, recalculate) (balances-put user_id k tier users e)
            ]
    ]
