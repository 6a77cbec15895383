-- ===== src/Membership/Service.antt =====
-- The administration of memberships: src/modules/memberships/memberships.service.ts and the calls
-- of its repositories/membership.repository.ts. The cached tiers are an argument where they are
-- read. The nick name of a tier and the log are left out.
use text.Mathlib.Text.{◌==◌ as str_eq}
use lif_low_backend.Prelude.{
  ℕ, suc, String, Bool, true, false, not, ◌&&◌, Option, none, some, List, [], ◌∷◌, ltb, leb, ◌==◌,
  if◌then◌else◌, get_or, find, filter,
}
use lif_low_backend.Schema.{
  User, UserMembership, Membership, Table, put, Result, ok, ◌>>=◌, ◌>>◌, or_throw, throw_if, update,
  not_found, bad_request, internal, p2003, membership_not_found, membership_exists,
  user_membership_not_found, user_membership_exists, end_not_after_start,
}
use lif_low_backend.Membership.{Clock, is_truthy}
use lif_low_backend.Membership.Recalculation.{Members}

abbrev pub find_tier : ℕ → List Membership → Option Membership
find_tier id = find λ (t : Membership). t.id == id

abbrev pub has_name : String → Membership → Bool
has_name name t = elim t.name [ none ↦ false | some n ↦ str_eq n name ]

abbrev pub find_tier_by_name : String → List Membership → Option Membership
find_tier_by_name name = find (has_name name)

abbrev pub is_there {ℓ} : {A : Type ℓ} → Option A → Bool
is_there none = false
is_there (some _) = true

pub record UpdateMembership : Type 0 where
  pub name : Option String
  pub description : Option String
  pub min_price : Option ℕ
  pub base_period : Option ℕ

abbrev pub or_old {ℓ} : {A : Type ℓ} → Option A → Option A → Option A
or_old none old = old
or_old (some a) _ = some a

abbrev pub with_membership_update : UpdateMembership → Membership → Membership
with_membership_update request t = record {
  id = t.id;
  name = or_old request.name t.name;
  description = or_old request.description t.description;
  min_price = or_old request.min_price t.min_price;
  base_period = or_old request.base_period t.base_period;
}

unfoldable pub set_tier : ℕ → (Membership → Membership) → List Membership → List Membership
set_tier id f [] = []
set_tier id f (t ∷ ts) = if t.id == id then f t ∷ ts else t ∷ set_tier id f ts

-- `create`: a new identifier, and a name that no tier has.
unfoldable pub create_membership :
    ℕ → String → UpdateMembership → List Membership → Result (List Membership)
create_membership id name request tiers =
    throw_if (is_there (find_tier_by_name name tiers)) (bad_request membership_exists)
    >> ok (
        record {
          id = id;
          name = some name;
          description = request.description;
          min_price = request.min_price;
          base_period = request.base_period;
        }
        ∷ tiers)

-- `existing && existing.id !== id`
abbrev pub is_of_another_tier : ℕ → Option Membership → Bool
is_of_another_tier id none = false
is_of_another_tier id (some t) = not (t.id == id)

abbrev pub name_taken : ℕ → Option String → List Membership → Bool
name_taken id none tiers = false
name_taken id (some name) tiers =
    not (str_eq name "") && is_of_another_tier id (find_tier_by_name name tiers)

-- `update`: the tiers, and whether a recalculation of all users is started.
unfoldable pub update_membership :
    ℕ → UpdateMembership → List Membership → Result (List Membership × Bool)
update_membership id request tiers =
    or_throw (find_tier id tiers) (not_found membership_not_found) >>= λ _.
    throw_if (name_taken id request.name tiers) (bad_request membership_exists)
    >> ok (set_tier id (with_membership_update request) tiers, is_there request.min_price)

abbrev pub is_of_tier : ℕ → Option UserMembership → Bool
is_of_tier id none = false
is_of_tier id (some m) = m.membership_id == id

-- `remove`: the memberships of the tier go with it (`onDelete: Cascade`), the levels of the users
-- stay.
unfoldable pub remove_membership :
    ℕ → List Membership → Table UserMembership → Result (List Membership × Table UserMembership)
remove_membership id tiers t =
    or_throw (find_tier id tiers) (not_found membership_not_found) >>= λ _. ok (
      filter (λ (x : Membership). not (x.id == id)) tiers,
      λ j. if is_of_tier id (t j) then none else t j,
    )

pub record AssignMembership : Type 0 where
  pub user_id : ℕ
  pub membership_id : ℕ
  pub status : Option String
  pub start_date : ℕ
  pub end_date : ℕ

abbrev pub assigned_membership : AssignMembership → Membership → UserMembership
assigned_membership request t = record {
  membership_id = request.membership_id;
  membership_name = get_or t.name "";
  membership_description = get_or t.description "";
  status = (if is_truthy request.status then get_or request.status "" else "normal");
  start_date = request.start_date;
  end_date = request.end_date;
}

-- A name that is null violates the column, which is an error of the database.
unfoldable pub assign_membership_to_user :
    AssignMembership → List Membership → Members → Result Members
assign_membership_to_user request tiers (users, t) =
    or_throw (find_tier request.membership_id tiers) (not_found membership_not_found) >>= λ tier.
    throw_if (is_there (t request.user_id)) (bad_request user_membership_exists)
    >> throw_if (leb request.end_date request.start_date) (bad_request end_not_after_start)
    >> (or_throw (users request.user_id) p2003 >>= λ _.
        ok (users, put request.user_id (assigned_membership request tier) t))

-- The tier of the level that the request names.
abbrev pub level_of_request : Option String → List Membership → Result (Option Membership)
level_of_request level tiers =
    if is_truthy level
    then (or_throw (find_tier_by_name (get_or level "") tiers) (not_found membership_not_found)
        >>= λ tier. ok (some tier))
    else ok none

pub record UpdateUserMembership : Type 0 where
  pub membership_level : Option String
  pub status : Option String
  pub start_date : Option ℕ
  pub end_date : Option ℕ

-- The dates are compared only if the request gives both.
abbrev pub is_disordered : Option ℕ → Option ℕ → Bool
is_disordered none _ = false
is_disordered (some s) none = false
is_disordered (some s) (some e) = leb e s

abbrev pub id_of_tier : Option Membership → ℕ → ℕ
id_of_tier none old = old
id_of_tier (some t) _ = t.id

abbrev pub name_of_tier : Option Membership → String → String
name_of_tier none old = old
name_of_tier (some t) _ = get_or t.name ""

abbrev pub with_user_update :
    UpdateUserMembership → Option Membership → UserMembership → UserMembership
with_user_update request tier m = record {
  membership_id = id_of_tier tier m.membership_id;
  membership_name = name_of_tier tier m.membership_name;
  membership_description = m.membership_description;
  status = get_or request.status "normal";
  start_date = get_or request.start_date m.start_date;
  end_date = get_or request.end_date m.end_date;
}

abbrev pub set_level : Option Membership → ℕ → Table User → Result (Table User)
set_level none k users = ok users
set_level (some t) k users = update k (λ u. record u { membership_level = t.name }) users

unfoldable pub update_user_membership :
    ℕ → UpdateUserMembership → List Membership → Members → Result Members
update_user_membership k request tiers (users, t) =
    or_throw (t k) (not_found user_membership_not_found) >>= λ _.
    throw_if (is_disordered request.start_date request.end_date) (bad_request end_not_after_start)
    >> (level_of_request request.membership_level tiers >>= λ tier.
        update k (with_user_update request tier) t >>= λ t'.
        set_level tier k users >>= λ users'. ok (users', t'))

-- A user without a membership is skipped.
unfoldable pub update_user_membership_status :
    ℕ → String → Table UserMembership → Result (Table UserMembership)
update_user_membership_status k status t = elim (t k) [
  | none ↦ ok t
  | some _ ↦ update k (λ m. record m { status = status }) t
]

unfoldable pub remove_user_membership : ℕ → ℕ → Table UserMembership → Result (Table UserMembership)
remove_user_membership k id t = or_throw (t k) (not_found user_membership_not_found) >>= λ m.
    throw_if (not (m.membership_id == id)) (internal user_membership_not_found)
    >> ok (λ j. if j == k then none else t j)

-- `syncUserMembershipByLevel`, with the tiers of the cache.
unfoldable pub sync_user_membership_by_level :
    Clock → ℕ → String → List Membership → Table UserMembership → Result (Table UserMembership)
sync_user_membership_by_level clock k level cached t =
    or_throw (find_tier_by_name level cached) (not_found membership_not_found) >>= λ tier.
    or_throw (t k) (not_found user_membership_not_found) >>= λ m.
    if m.membership_id == tier.id
    then ok t
    else ok (
        put k
          (record {
            membership_id = tier.id;
            membership_name = get_or tier.name level;
            membership_description = get_or tier.description "";
            status = "normal";
            start_date = m.start_date;
            end_date = (if ltb clock.now m.end_date then m.end_date else clock.one_year_from_now);
          })
          t)

-- One update of `bulkUpdateMemberships`, without a name.
abbrev pub bulk_item : ℕ × Option ℕ × Option ℕ → UpdateMembership
bulk_item (_, min_price, base_period) = record {
  name = none;
  description = none;
  min_price = min_price;
  base_period = base_period;
}

-- `bulkUpdateMemberships`: the tiers, and how many updates went through and failed.
unfoldable pub bulk_update_memberships :
    List (ℕ × Option ℕ × Option ℕ) → List Membership × ℕ × ℕ → List Membership × ℕ × ℕ
bulk_update_memberships [] s = s
bulk_update_memberships (u ∷ us) (tiers, successful, failed) =
    bulk_update_memberships us (elim (find_tier u.0 tiers) [
      | none ↦ (tiers, successful, suc failed)
      | some _ ↦ (set_tier u.0 (with_membership_update (bulk_item u)) tiers, suc successful, failed)
    ])
