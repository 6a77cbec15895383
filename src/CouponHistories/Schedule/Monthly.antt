-- ===== src/CouponHistories/Schedule/Monthly.antt =====
-- The monthly issuing gives each user that a coupon is meant for just one more.
use lif_low_backend.Prelude.{
  unique, ℕ, String, is_empty, length, ◌+◌, ◌≡◌, refl, ap, Bool, true, false, not, ◌&&◌, ◌||◌, none,
  some, List, [], ◌∷◌, arith, ◌==◌, if◌then◌else◌, one_if, sum_by, filter, contains, Bool-cases,
  Option, Option-cases, inl, inr, ==_iff,
}
use lif_low_backend.Schema.{User, Table, Coupon, CouponHistory}
use lif_low_backend.Coupons.{Histories}
use lif_low_backend.Coupons.Used.{held}
use lif_low_backend.CouponHistories.{Period, one_issue}
use lif_low_backend.CouponHistories.Held.{held-create_many}
use lif_low_backend.CouponHistories.Issuance.{includes, has_level_in, users_at}
use lif_low_backend.CouponHistories.Schedule.{
  has_issued, raise_first, issue_to_users, valid_grades, is_automatic, grades_to_match,
  issue_automatic, visit, issue_auto_issue_coupons_to_target_grades,
}

-- A user's first issued history goes up by one, if the user is meant and was not yet seen.
held-raise_first :
    (j v k : ℕ) (users seen : List ℕ) (hs : List CouponHistory)
    → held j v (raise_first k users seen hs)
      ≡ held j v hs
        + one_if (k == j && (contains v users && (not (contains v seen) && has_issued k hs v)))
unfolding raise_first
held-raise_first j v k users seen [] = ground arith
held-raise_first j v k users seen (h ∷ hs) =
    let raised = held-raise_first j v k users (h.user_id ∷ seen) hs in
    let rest = held-raise_first j v k users seen hs in
    elim (Bool-cases (h.user_id == v)) [
      | inl same ↦
          let q : h.user_id ≡ v = (==_iff _ _).0 same in
          ground (arith, raised, rest, ap (λ u. contains u users) q, ap (λ u. contains u seen) q)
      | inr other ↦ ground (arith, raised, rest)
    ]

sum-unique :
    (p : ℕ → Bool) (v : ℕ) (seen us : List ℕ)
    → sum_by (λ u. if u == v then 1 else 0) (filter p (unique seen us))
      ≡ one_if (contains v us && (not (contains v seen) && p v))
unfolding unique
sum-unique p v seen [] = refl
sum-unique p v seen (u ∷ us) =
    let fresh = sum-unique p v (u ∷ seen) us in
    let rest = sum-unique p v seen us in
    elim (Bool-cases (u == v)) [
      | inl same ↦
          let q : u ≡ v = (==_iff _ _).0 same in
          ground (arith, fresh, rest, ap (λ w. contains w seen) q, ap p q)
      | inr other ↦ ground (arith, fresh, rest)
    ]

contains-filter :
    (p : ℕ → Bool) (v : ℕ) (us : List ℕ) → contains v (filter p us) ≡ (contains v us && p v)
contains-filter p v [] = refl
contains-filter p v (u ∷ us) = elim (Bool-cases (u == v)) [
  | inl same ↦ let q : u ≡ v = (==_iff _ _).0 same in ground (arith, contains-filter p v us, ap p q)
  | inr other ↦ ground (arith, contains-filter p v us)
]

-- When a coupon is issued to users, each of them holds one more of it than before, however often
-- they are named and whether they hold some already, and nothing else changes.
pub held-issue_to_users :
    (j v k : ℕ) (users : List ℕ) (month : Period) (now : ℕ) (s : Histories)
    → held j v (issue_to_users k users month now s).1.0
      ≡ held j v s.0 + one_if (k == j && contains v users)
unfolding issue_to_users
held-issue_to_users j v k users month now (hs, last) =
    let created =
      held-create_many j v k (one_issue month now)
        (filter (λ u. not (has_issued k hs u)) (unique [] users))
        (raise_first k users [] hs, last) in
    ground (
      arith,
      created,
      held-raise_first j v k users [] hs,
      sum-unique (λ u. not (has_issued k hs u)) v [] users,
    )

-- A user is meant for a coupon if it is automatic and the user is of one of its grades, or if it
-- has none.
abbrev pub is_meant : List ℕ → Table User → ℕ → Coupon → Bool
is_meant ids users v c =
    is_automatic c
    && (contains v ids && (is_empty c.target_grades || has_level_in (grades_to_match c) (users v)))

contains-users_at :
    (v : ℕ) (levels : List String) (ids : List ℕ) (users : Table User)
    → contains v (users_at levels ids users)
      ≡ (contains v ids && (is_empty levels || has_level_in levels (users v)))
unfolding users_at
contains-users_at v [] ids users = ground arith
contains-users_at v (l ∷ ls) ids users = contains-filter _ v ids

is_empty-filter :
    {A : Type 0} (p : A → Bool) (xs : List A) → is_empty xs ≡ true → is_empty (filter p xs) ≡ true
is_empty-filter p [] e = refl
is_empty-filter p (x ∷ xs) e = cc

no_level : (ls : List String) (u : Option User) → is_empty ls ≡ true → has_level_in ls u ≡ false
no_level [] none e = refl
no_level [] (some u) e = elim (Option-cases u.membership_level) [
  | inl f ↦ rw f refl
  | inr (_, f) ↦ rw f refl
]
no_level (l ∷ ls) u e = cc

no_user : (v : ℕ) (us : List ℕ) → is_empty us ≡ true → contains v us ≡ false
no_user v [] e = refl
no_user v (u ∷ us) e = cc

held-visit :
    (j v : ℕ) (ids : List ℕ) (users : Table User) (month : Period) (now : ℕ) (c : Coupon)
    (s : Histories)
    → held j v (visit ids users month now c s).histories.0
      ≡ held j v s.0 + one_if (c.id == j && is_meant ids users v c)
unfolding visit issue_automatic
held-visit j v ids users month now c s =
    let targets = users_at (grades_to_match c) ids users in
    let held_lem = held-issue_to_users j v c.id targets month now s in
    let meant = contains-users_at v (grades_to_match c) ids users in
    elim (Bool-cases (is_empty c.target_grades)) [
      | inl all ↦
          let grades = is_empty-filter (λ g. includes g valid_grades) c.target_grades all in
          elim (Bool-cases (is_empty targets)) [
            | inl e ↦ ground (arith, all, grades, e, meant, no_user v targets e)
            | inr e ↦ ground (arith, all, grades, e, meant, held_lem)
          ]
      | inr some_of ↦ elim (Bool-cases (is_empty (grades_to_match c))) [
        | inl e ↦ ground (arith, some_of, e, no_level (grades_to_match c) (users v) e)
        | inr grades ↦ elim (Bool-cases (is_empty targets)) [
          | inl e ↦ ground (arith, some_of, grades, e, meant, no_user v targets e)
          | inr e ↦ ground (arith, some_of, grades, e, meant, held_lem)
        ]
      ]
    ]

-- A run of the monthly issuing gives each user one coupon for each automatic coupon of the table
-- that is meant for the user, whether the user holds some already or not, and takes none away.
pub held-issue_auto_issue_coupons_to_target_grades :
    (j v : ℕ) (ids : List ℕ) (users : Table User) (month : Period) (now : ℕ) (coupons : List Coupon)
    (s : Histories)
    → held j v (issue_auto_issue_coupons_to_target_grades ids users month now coupons s).histories.0
      ≡ held j v s.0 + length (filter (λ c. c.id == j && is_meant ids users v c) coupons)
unfolding issue_auto_issue_coupons_to_target_grades
held-issue_auto_issue_coupons_to_target_grades j v ids users month now [] s = ground arith
held-issue_auto_issue_coupons_to_target_grades j v ids users month now (c ∷ cs) s =
    let rest =
      held-issue_auto_issue_coupons_to_target_grades j v ids users month now cs
        (visit ids users month now c s).histories in
    ground (arith, rest, held-visit j v ids users month now c s)
