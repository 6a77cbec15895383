-- ===== src/Membership/Recalculation.antt =====
-- The recalculation of the membership levels from the payments of the last months:
-- src/modules/memberships/cronjob/membership-cronjob.service.ts. The list of the users, the clock
-- and the moment that lies a number of months back are arguments.
use text.Mathlib.Text.{◌==◌ as str_eq}
use lif_low_backend.Prelude.{
  ℕ, suc, ℤ, pos, ◌+ℤ◌, ◌-ℤ◌, Bool, false, ◌&&◌, Option, none, some, List, [], ◌∷◌, ltb, leb, ◌==◌,
  if◌then◌else◌, get_or, is_empty, any,
}
use lif_low_backend.Schema.{
  User, UserMembership, Membership, Payment, is_success, Table, put, Result, ok, err, ◌>>=◌,
  or_throw, update, p2003,
}
use lif_low_backend.Membership.{
  Clock, appropriate_tier, by_min_price_desc, last_tier, membership_of, with_level,
}

-- What the service reads and writes of the users.
abbrev pub Members : Type 0
Members = Table User × Table UserMembership

-- `p.status = 'SUCCESS' AND p.approved_at >= since`, of the user.
abbrev pub is_counted : ℕ → ℕ → Payment → Bool
is_counted since user_id p =
    p.user_id == user_id
    && is_success p.status
    && (elim p.approved_at [ none ↦ false | some a ↦ leb since a ])

-- `COALESCE(SUM(p.total_amount - p.canceled_amount), 0)`
unfoldable pub purchase_amount : ℕ → ℕ → List Payment → ℤ
purchase_amount since user_id [] = pos 0
purchase_amount since user_id (p ∷ ps) =
    if is_counted since user_id p
    then (pos p.total_amount -ℤ p.canceled_amount) +ℤ purchase_amount since user_id ps
    else purchase_amount since user_id ps

pub data Action : Type 0 where
  created updated unchanged : Action

abbrev pub with_total : ℤ → User → User
with_total amount u = record u { total_purchase_amount = some amount }

abbrev pub is_normal : UserMembership → Bool
is_normal m = str_eq m.status "normal"

-- The membership of the user, if its status is normal.
abbrev pub existing_membership : ℕ → Table UserMembership → Option UserMembership
existing_membership user_id t = elim (t user_id) [
  | none ↦ none
  | some m ↦ if is_normal m then some m else none
]

abbrev pub is_still_active : Clock → Membership → Option UserMembership → Bool
is_still_active clock tier none = false
is_still_active clock tier (some m) = m.membership_id == tier.id && ltb clock.now m.end_date

abbrev pub action_of : Membership → Option UserMembership → Action
action_of tier none = created
action_of tier (some m) = if m.membership_id == tier.id then created else updated

abbrev pub update_user_membership_level :
    ℕ → Membership → Members → Action → Result (Members × Action)
update_user_membership_level user_id tier (users, memberships) action =
    update user_id (with_level tier) users >>= λ users'. ok ((users', memberships), action)

-- `upsert`: a new row needs its user.
abbrev pub upsert_membership : ℕ → UserMembership → Members → Result Members
upsert_membership user_id m (users, memberships) = elim (memberships user_id) [
  | some _ ↦ ok (users, put user_id m memberships)
  | none ↦ or_throw (users user_id) p2003 >>= λ _. ok (users, put user_id m memberships)
]

unfoldable pub assign_tier : Clock → ℕ → Membership → Members → Result (Members × Action)
assign_tier clock user_id tier s =
    let old = existing_membership user_id s.1 in
    if is_still_active clock tier old
    then update_user_membership_level user_id tier s unchanged
    else upsert_membership user_id (membership_of clock tier) s >>= λ s'.
        update_user_membership_level user_id tier s' (action_of tier old)

unfoldable pub recalculate_user_membership :
    Clock → ℕ → ℤ → List Membership → Members → Result (Members × Action)
recalculate_user_membership clock user_id amount tiers s =
    if is_empty tiers then ok (s, unchanged) else elim (appropriate_tier amount tiers) [
      | none ↦ ok (s, unchanged)
      | some tier ↦ assign_tier clock user_id tier s
    ]

-- The counts that the recalculation returns.
pub record MemberTally : Type 0 where
  pub users_processed : ℕ
  pub memberships_updated : ℕ
  pub memberships_created : ℕ
  pub failures : ℕ

abbrev pub no_members : MemberTally
no_members = record {
  users_processed = 0;
  memberships_updated = 0;
  memberships_created = 0;
  failures = 0;
}

abbrev pub counted_action : Action → MemberTally → MemberTally
counted_action created n = record n {
  memberships_created = suc n.memberships_created;
  users_processed = suc n.users_processed;
}
counted_action updated n = record n {
  memberships_updated = suc n.memberships_updated;
  users_processed = suc n.users_processed;
}
counted_action unchanged n = record n { users_processed = suc n.users_processed }

abbrev pub one_failure : MemberTally → MemberTally
one_failure n = record n { failures = suc n.failures }

-- The rest of a round, after the total was written: what is written stays if this fails.
abbrev pub counted_round : Members → MemberTally → Result (Members × Action) → Members × MemberTally
counted_round s n (err _) = (s, one_failure n)
counted_round s n (ok (s', a)) = (s', counted_action a n)

module _ (clock : Clock) (since : ℕ) (payments : List Payment) (tiers : List Membership) where
  unfoldable pub process_user : ℕ → Members × MemberTally → Members × MemberTally
  process_user user_id ((users, memberships), n) =
      let amount = purchase_amount since user_id payments in
      elim (update user_id (with_total amount) users) [
        | err _ ↦ ((users, memberships), one_failure n)
        | ok users' ↦
            counted_round (users', memberships) n
              (recalculate_user_membership clock user_id amount tiers (users', memberships))
      ]

  unfoldable pub process_users : List ℕ → Members × MemberTally → Members × MemberTally
  process_users [] s = s
  process_users (k ∷ ks) s = process_users ks (process_user k s)

-- `membershipTiers[membershipTiers.length - 1]?.basePeriod ?? 3`
abbrev pub base_period_of : Option Membership → ℕ
base_period_of none = 3
base_period_of (some t) = get_or t.base_period 3

unfoldable pub recalculate_all_user_memberships :
    Clock → (ℕ → ℕ) → List ℕ → List Payment → List Membership → Members → Members × MemberTally
recalculate_all_user_memberships clock months_ago ids payments tiers s =
    let period = base_period_of (last_tier (by_min_price_desc tiers)) in
    if is_empty tiers
    then (s, no_members)
    else process_users clock (months_ago period) payments tiers ids (s, no_members)

-- The range of amounts that is computed is not used: all users are recalculated.
unfoldable pub recalculate_memberships_after_tier_update :
    Clock → (ℕ → ℕ) → List ℕ → List Payment → List Membership → ℕ → Members → Members × MemberTally
recalculate_memberships_after_tier_update clock months_ago ids payments tiers tier_id s =
    let all = recalculate_all_user_memberships clock months_ago ids payments tiers s in
    if any (λ (t : Membership). t.id == tier_id) tiers then all else (s, no_members)
