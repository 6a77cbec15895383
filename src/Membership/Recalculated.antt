-- ===== src/Membership/Recalculated.antt =====
-- What the recalculation of all membership levels achieves
-- (src/modules/memberships/cronjob/membership-cronjob.service.ts).
use lif_low_backend.Prelude.{ℕ, ◌≡◌, ℤ, true, some, List, Listed, ltb}
use lif_low_backend.Schema.{User, UserMembership, Membership, Payment}
use lif_low_backend.Membership.{Clock, is_valid_tier, appropriate_tier, with_level}
use lif_low_backend.Membership.Recalculation.{
  Members, purchase_amount, with_total, MemberTally, process_user, process_users,
}
use lif_low_backend.Membership.Assigned.{IsOfTier, IsElsewhere}

-- What a user is after the recalculation: the total is what was paid, and the level, in the
-- user's row and in the membership, is that of the tier for this total.
abbrev pub IsRecalculated : Clock → ℕ → List Payment → List Membership → ℕ → User → Members → Type 0
IsRecalculated clock since payments tiers k v s =
    (tier : Membership) × (appropriate_tier (purchase_amount since k payments) tiers ≡ some tier)
    × (s.0 k ≡ some (with_level tier (with_total (purchase_amount since k payments) v)))
    × ((m : UserMembership) × (s.1 k ≡ some m) × IsOfTier clock tier m)

module _ (clock : Clock) (since : ℕ) (payments : List Payment) (tiers : List Membership)
    (u : Membership) (later : ltb clock.now clock.one_year_from_now ≡ true)
    (listed : Listed u tiers) (valid : is_valid_tier u ≡ true) where
  abbrev process : ℕ → Members × MemberTally → Members × MemberTally
  process = process_user clock since payments tiers

  abbrev process_all : List ℕ → Members × MemberTally → Members × MemberTally
  process_all = process_users clock since payments tiers

  abbrev amount_of : ℕ → ℤ
  amount_of k = purchase_amount since k payments

  IsRound : ℕ → User → Members → MemberTally → Members × MemberTally → Type 0
  IsRound k v s n r =
      IsRecalculated clock since payments tiers k v r.0
      × IsElsewhere k s.0 r.0.0
      × IsElsewhere k s.1 r.0.1
      × (r.1.failures ≡ n.failures)
