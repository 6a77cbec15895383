-- ===== src/Membership/Levels.antt =====
-- The level in a user's row and the name of the user's membership, under the administration of
-- memberships (src/modules/memberships/memberships.service.ts).
use mathlib.Core.Option
use text.Mathlib.TextEquality.{eq_iff}
use lif_low_backend.Prelude.{
  ℕ, ◌≡◌, refl, subst, ap, sym, ◌∙◌, String, Bool, true, false, Option, none, some, List, [], ◌∷◌,
  ◌==◌, if◌then◌else◌, get_or, inl, inr, Bool-cases, Option-cases, some-injective,
}
use lif_low_backend.Schema.{
  User, UserMembership, Membership, Table, ok, >>=-eq-ok, or_throw, or_throw-eq-ok, throw_if,
  ok-injective, update, update-eq-ok, not_found, bad_request, membership_not_found,
  user_membership_not_found, end_not_after_start,
}
use lif_low_backend.Membership.{is_truthy}
use lif_low_backend.Membership.Recalculation.{Members}
use lif_low_backend.Membership.Service.{
  has_name, find_tier_by_name, UpdateUserMembership, is_disordered, level_of_request,
  with_user_update, set_level, update_user_membership,
}

-- Every user with a membership has its name as level.
abbrev pub HasLevel : Option User → Option UserMembership → Type 0
HasLevel u none = Unit
HasLevel none (some m) = ⊥
HasLevel (some u) (some m) = u.membership_level ≡ some m.membership_name

abbrev pub HasLevels : Members → Type 0
HasLevels s = (k : ℕ) → HasLevel (s.0 k) (s.1 k)

find_named :
    (name : String) (tiers : List Membership) {t : Membership}
    → find_tier_by_name name tiers ≡ some t
    → t.name ≡ some name
find_named name [] h = cc
find_named name (t ∷ ts) {t = t'} h = elim (Bool-cases (has_name name t)) [
  | inl here ↦
      let same : t ≡ t' = some-injective (rw here at h) in
      ap (λ (x : Membership). x.name) (sym same) ∙ named t here
  | inr there ↦ find_named name ts (rw there at h)
]
  where
    named : (t : Membership) → has_name name t ≡ true → t.name ≡ some name
    named t e = elim (Option-cases t.name) [
      | inl f ↦ cc (rw (f, has_name) at e)
      | inr (n, f) ↦ f ∙ ap some ((eq_iff n name).0 (rw (f, has_name) at e))
    ]

abbrev IsNamed : Option Membership → Type 0
IsNamed none = Unit
IsNamed (some t) = (n : String) × (t.name ≡ some n)

level_of_request-IsNamed :
    (level : Option String) (tiers : List Membership) {o : Option Membership}
    → level_of_request level tiers ≡ ok o
    → IsNamed o
level_of_request-IsNamed level tiers {o} h = elim (Bool-cases (is_truthy level)) [
  | inl given ↦
      let (t, e, made) =
        >>=-eq-ok
          (or_throw (find_tier_by_name (get_or level "") tiers) (not_found membership_not_found)) _
          (rw (given, level_of_request) at h) in
      subst IsNamed (ok-injective made)
        (get_or level "", find_named (get_or level "") tiers (or_throw-eq-ok _ _ e))
  | inr missing ↦
      let none_o : none ≡ o = ok-injective (rw (missing, level_of_request) at h) in
      subst IsNamed none_o tt
]

abbrev leveled : Option Membership → Option User → Option User
leveled none u = u
leveled (some t) u = Option.map (λ (x : User). record x { membership_level = t.name }) u

updated-HasLevel :
    (request : UpdateUserMembership) (tier : Option Membership) (u : Option User)
    (m : Option UserMembership)
    → IsNamed tier
    → HasLevel u m
    → HasLevel (leveled tier u) (Option.map (with_user_update request tier) m)
updated-HasLevel request none u none n h = tt
updated-HasLevel request none none (some m) n h = h
updated-HasLevel request none (some u) (some m) n h = h
updated-HasLevel request (some t) u none n h = tt
updated-HasLevel request (some t) none (some m) n h = h
updated-HasLevel request (some t) (some u) (some m) (name, e) h = rw e refl

either_way : {A : Type 0} (b : Bool) (o : A) → o ≡ (if b then o else o)
either_way true o = refl
either_way false o = refl

set_level-leveled :
    (tier : Option Membership) (k : ℕ) (users : Table User) {users' : Table User}
    → set_level tier k users ≡ ok users'
    → (j : ℕ) → users' j ≡ (if j == k then leveled tier (users j) else users j)
set_level-leveled none k users h j =
    ap (λ (t : Table User). t j) (sym (ok-injective h)) ∙ either_way (j == k) (users j)
set_level-leveled (some t) k users h j =
    update-eq-ok k (λ (x : User). record x { membership_level = t.name }) users h j

kept :
    (request : UpdateUserMembership) (tier : Option Membership)
    → IsNamed tier
    → (u' : Option User) (m' : Option UserMembership) (b : Bool) (u : Option User)
      (m : Option UserMembership)
    → HasLevel u m
    → u' ≡ (if b then leveled tier u else u)
    → m' ≡ (if b then Option.map (with_user_update request tier) m else m)
    → HasLevel u' m'
kept request tier n u' m' true u m h e f = rw (e, f) (updated-HasLevel request tier u m n h)
kept request tier n u' m' false u m h e f = rw (e, f) h

-- `updateUserMembership` keeps the level of every user the name of the user's membership, if it is
-- so at the start.
pub update_user_membership-HasLevels :
    (k : ℕ) (request : UpdateUserMembership) (tiers : List Membership) (s : Members) {s' : Members}
    → HasLevels s
    → update_user_membership k request tiers s ≡ ok s'
    → HasLevels s'
unfolding update_user_membership
update_user_membership-HasLevels k request tiers s {s'} levels h j =
    let found = or_throw (s.1 k) (not_found user_membership_not_found) in
    let dates =
      throw_if (is_disordered request.start_date request.end_date)
        (bad_request end_not_after_start) in
    let (_, _, h1) = >>=-eq-ok found _ h in
    let (_, _, h2) = >>=-eq-ok dates _ h1 in
    let (tier, chosen, h3) = >>=-eq-ok (level_of_request request.membership_level tiers) _ h2 in
    let (t', written, h4) = >>=-eq-ok (update k (with_user_update request tier) s.1) _ h3 in
    let (users', set, made) = >>=-eq-ok (set_level tier k s.0) _ h4 in
    let named = level_of_request-IsNamed request.membership_level tiers chosen in
    let users_at = set_level-leveled tier k s.0 set j in
    let row_at = update-eq-ok k (with_user_update request tier) s.1 written j in
    let both : HasLevel (users' j) (t' j) =
      kept request tier named (users' j) (t' j) (j == k) (s.0 j) (s.1 j) (levels j) users_at
        row_at in
    subst (λ (r : Members). HasLevel (r.0 j) (r.1 j)) (ok-injective made) both
