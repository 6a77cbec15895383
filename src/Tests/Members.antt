-- ===== src/Tests/Members.antt =====
-- The theorems on memberships, on two users and three tiers.
use Prim.Native.String.{String}
use lif_low_backend.Prelude.{ℕ, pos, none, some, ◌-◌, refl, inl, inr, Bool-cases, ◌==◌}
use lif_low_backend.Schema.{Payment, PaymentStatus, PaymentType, put}
use lif_low_backend.Membership.{Clock}
use lif_low_backend.Membership.Recalculation.{Members}
use lif_low_backend.Membership.Service.{
  AssignMembership, UpdateUserMembership, update_user_membership,
}
use lif_low_backend.Membership.Levels.{HasLevels, update_user_membership-HasLevels}
use lif_low_backend.Tests.{empty, value_or, user, tiers}

abbrev year : Clock
year = record { now = 100; one_year_from_now = 465 }

abbrev months_ago : ℕ → ℕ
months_ago n = 200 - n

abbrev paid : ℕ → ℕ → Payment
paid who amount = record {
  id = 1;
  user_id = who;
  order_group_number = 42;
  payment_key = 7;
  total_amount = amount;
  balance_amount = amount;
  status = PaymentStatus.success;
  payment_type = PaymentType.normal;
  canceled_amount = pos 0;
  approved_at = some 198;
  details = 0;
}

abbrev members : Members
members = (put 4 user (put 5 user empty), empty)

abbrev with_tier : ℕ → Members
with_tier who = (
  put who (record user { membership_level = some "tier" }) empty,
  put who
      (record {
        membership_id = 3;
        membership_name = "tier";
        membership_description = "";
        status = "normal";
        start_date = 1;
        end_date = 9;
      })
      empty,
)

with_tier-HasLevels : HasLevels (with_tier 4)
with_tier-HasLevels k = elim (Bool-cases (k == 4)) [
  | inl same ↦ rw same refl
  | inr other ↦ rw other tt
]

abbrev longer : UpdateUserMembership
longer = record {
  membership_level = some "tier";
  status = none;
  start_date = none;
  end_date = some 20;
}

update_user_membership-HasLevels_example :
    HasLevels (value_or members (update_user_membership 4 longer tiers (with_tier 4)))
unfolding update_user_membership
update_user_membership-HasLevels_example =
    update_user_membership-HasLevels 4 longer tiers (with_tier 4) with_tier-HasLevels refl

abbrev request : AssignMembership
request = record { user_id = 4; membership_id = 3; status = none; start_date = 1; end_date = 9 }
