-- ===== src/Membership.antt =====
-- The membership level after a cancellation or a return (step 8 of `cancelPayment`, 6.8 of
-- `returnPayment` in src/modules/payment/payment.service.ts).
pub mod Order
pub mod Laws
pub mod Recalculation
pub mod Assigned
pub mod Recalculated
pub mod Levels
pub mod Service
use text.Mathlib.Text.{◌==◌ as str_eq}
use lif_low_backend.Prelude.{
  ℕ, ℤ, pos, String, Bool, true, false, not, ◌&&◌, Option, none, some, List, [], ◌∷◌, leb, leb_ℤ,
  if◌then◌else◌, get_or, filter,
}
use lif_low_backend.Schema.{User, UserMembership, Membership, Table, put}

-- The clock readings of one call.
pub record Clock : Type 0 where
  pub now : ℕ
  pub one_year_from_now : ℕ

-- A text is falsy if it is null or empty.
abbrev pub is_truthy : Option String → Bool
is_truthy none = false
is_truthy (some s) = not (str_eq s "")

abbrev pub is_priced : Option ℕ → Bool
is_priced none = false
is_priced (some _) = true

-- The filter of `validTiers`.
abbrev pub is_valid_tier : Membership → Bool
is_valid_tier tier = is_truthy tier.name && is_priced tier.min_price

abbrev pub price_of : Membership → ℕ
price_of tier = get_or tier.min_price 0

-- `orderBy: { minPrice: 'desc' }`, in which the database puts nulls first.
abbrev pub comes_before : Membership → Membership → Bool
comes_before a b = elim a.min_price [
  | none ↦ true
  | some p ↦ elim b.min_price [ none ↦ false | some q ↦ leb q p ]
]

unfoldable pub insert_tier : Membership → List Membership → List Membership
insert_tier tier [] = tier ∷ []
insert_tier tier (t ∷ tiers) =
    if comes_before tier t then tier ∷ t ∷ tiers else t ∷ insert_tier tier tiers

unfoldable pub by_min_price_desc : List Membership → List Membership
by_min_price_desc [] = []
by_min_price_desc (t ∷ tiers) = insert_tier t (by_min_price_desc tiers)

-- The loop with `break`: the first tier whose price the total reaches.
unfoldable pub first_reached : ℤ → List Membership → Option Membership
first_reached total [] = none
first_reached total (t ∷ tiers) =
    if leb_ℤ (pos (price_of t)) total then some t else first_reached total tiers

-- `validTiers[validTiers.length - 1]`
unfoldable pub last_tier : List Membership → Option Membership
last_tier [] = none
last_tier (t ∷ []) = some t
last_tier (t ∷ u ∷ tiers) = last_tier (u ∷ tiers)

abbrev pub or_else {ℓ} : {A : Type ℓ} → Option A → Option A → Option A
or_else none o = o
or_else (some a) _ = some a

unfoldable pub appropriate_tier : ℤ → List Membership → Option Membership
appropriate_tier total memberships =
    let tiers = filter is_valid_tier (by_min_price_desc memberships) in
    or_else (first_reached total tiers) (last_tier tiers)

-- The `upsert`, which writes the same values in both cases.
abbrev pub membership_of : Clock → Membership → UserMembership
membership_of clock tier = record {
  membership_id = tier.id;
  membership_name = get_or tier.name "";
  membership_description = get_or tier.description "";
  status = "normal";
  start_date = clock.now;
  end_date = clock.one_year_from_now;
}

abbrev pub with_level : Membership → User → User
with_level tier u = record u { membership_level = some (get_or tier.name "") }

-- Step 8 on the users and their memberships. A user who is gone is left alone.
unfoldable pub recalculate :
    Clock
    → ℕ
    → List Membership
    → Table User × Table UserMembership
    → Table User × Table UserMembership
recalculate clock user_id memberships (users, user_memberships) = elim (users user_id) [
  | none ↦ (users, user_memberships)
  | some u ↦ elim (appropriate_tier (get_or u.total_purchase_amount (pos 0)) memberships) [
    | none ↦ (users, user_memberships)
    | some tier ↦ (
      put user_id (with_level tier u) users,
      put user_id (membership_of clock tier) user_memberships,
    )
  ]
]
