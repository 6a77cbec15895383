-- ===== src/CouponHistories/Issuance/Laws.antt =====
-- What `issueCoupon` promises, and that it cannot be repeated for a user.
use mathlib.Core.List.{append_assoc}
use lif_low_backend.Prelude.{
  ℕ, suc, ◌+◌, ◌≡◌, refl, sym, ap, ◌∙◌, Bool, true, false, ◌||◌, some, List, [], ◌∷◌, ◌++◌, All,
  arith, ◌==◌, any, contains, Bool-cases, inl, inr, ==_iff,
}
use lif_low_backend.Schema.{
  Coupon, CouponHistory, CouponHistoryStatus, ok, err, bad_request, coupon_already_issued,
  ok-injective, >>=-eq-ok, throw_if-eq-ok,
}
use lif_low_backend.Coupons.{Histories, is_issued_to}
use lif_low_backend.Coupons.Used.{held}
use lif_low_backend.CouponHistories.{Issue, one_issue, issued_history, create_many, create_bulk}
use lif_low_backend.CouponHistories.Held.{given, held-create_many}
use lif_low_backend.CouponHistories.Issuance.{
  validate_coupon_for_issuance, check_duplicate_issuance, is_duplicate, no_period, issue_coupon,
}

or_right : (a b : Bool) → (a || b) ≡ false → b ≡ false
or_right true b h = cc
or_right false b h = h

or_true : (a b : Bool) → b ≡ true → (a || b) ≡ true
or_true true b h = refl
or_true false b h = h

is_issued_to-is_duplicate :
    (k v : ℕ) (us : List ℕ) (h : CouponHistory)
    → contains v us ≡ true
    → is_issued_to k v h ≡ true
    → is_duplicate k us h ≡ true
is_issued_to-is_duplicate k v us h named mine = elim (Bool-cases (h.user_id == v)) [
  | inl same ↦ let q : h.user_id ≡ v = (==_iff _ _).0 same in rw (q, named) (ground (arith, mine))
  | inr other ↦ ground (arith, mine, other)
]

-- A user who is named and has no duplicate holds none of the coupon.
held-any :
    (k v : ℕ) (us : List ℕ) (hs : List CouponHistory)
    → contains v us ≡ true
    → any (is_duplicate k us) hs ≡ false
    → held k v hs ≡ 0
held-any k v us [] named none_of = refl
held-any k v us (h ∷ hs) named none_of = elim (Bool-cases (is_issued_to k v h)) [
  | inl mine ↦ cc (is_issued_to-is_duplicate k v us h named mine, none_of)
  | inr other ↦ rw other (omega (arith, held-any k v us hs named (or_right _ _ none_of)))
]

create_many-any :
    (p : CouponHistory → Bool) (k : ℕ) (i : Issue) (us : List ℕ) (s : Histories)
    → any p s.0 ≡ true
    → any p (create_many k i us s).0 ≡ true
unfolding create_many
create_many-any p k i [] s found = found
create_many-any p k i (u ∷ us) (hs, last) found =
    create_many-any p k i us (issued_history (suc last) k u i ∷ hs, suc last) (or_true _ _ found)

create_many-is_duplicate :
    (k v : ℕ) (i : Issue) (us us' : List ℕ) (s : Histories)
    → contains v us ≡ true
    → contains v us' ≡ true
    → any (is_duplicate k us') (create_many k i us s).0 ≡ true
unfolding create_many
create_many-is_duplicate k v i [] us' s named named' = cc
create_many-is_duplicate k v i (u ∷ us) us' (hs, last) named named' = elim (Bool-cases (u == v)) [
  | inl same ↦
      let q : u ≡ v = (==_iff _ _).0 same in
      create_many-any (is_duplicate k us') k i us _ (rw (q, named') (ground arith))
  | inr other ↦ create_many-is_duplicate k v i us us' _ (rw other at named) named'
]

pub issue_coupon-eq-ok :
    (k : ℕ) (us : List ℕ) (coupons : List Coupon) (now : ℕ) (s : Histories) {n : ℕ} {s' : Histories}
    → issue_coupon k us coupons now s ≡ ok (n, s')
    → (c : Coupon) × (validate_coupon_for_issuance k coupons ≡ ok c)
      × (any (is_duplicate k us) s.0 ≡ false)
      × (s' ≡ (create_bulk k us no_period now s).1)
unfolding issue_coupon check_duplicate_issuance
issue_coupon-eq-ok k us coupons now (hs, last) h =
    let (c, valid, rest) = >>=-eq-ok (validate_coupon_for_issuance k coupons) _ h in
    let (_, checked, made) = >>=-eq-ok (check_duplicate_issuance k us hs) _ rest in
    (c, valid, throw_if-eq-ok _ _ checked, sym (ap (λ r. r.1) (ok-injective made)))

-- The row is an issued one of the coupon, for a user who is named.
abbrev pub IsIssuedTo : ℕ → List ℕ → CouponHistory → Type 0
IsIssuedTo k us h =
    (h.coupon_id ≡ some k)
    × (contains h.user_id us ≡ true)
    × (h.status ≡ CouponHistoryStatus.issued)

named_too :
    (k u : ℕ) (us : List ℕ) (hs : List CouponHistory)
    → All (IsIssuedTo k us) hs
    → All (IsIssuedTo k (u ∷ us)) hs
named_too k u us [] a = tt
named_too k u us (h ∷ hs) a =
    ((a.0.0, or_true (u == h.user_id) _ a.0.1, a.0.2), named_too k u us hs a.1)

All-snoc :
    (P : CouponHistory → Type 0) (hs : List CouponHistory) (h : CouponHistory)
    → All P hs
    → P h
    → All P (hs ++ h ∷ [])
All-snoc P [] h a p = (p, tt)
All-snoc P (x ∷ hs) h a p = (a.0, All-snoc P hs h a.1 p)

-- Issuing puts rows in front of the table.
create_many-adds :
    (k : ℕ) (i : Issue) (us : List ℕ) (s : Histories)
    → (new : List CouponHistory) × ((create_many k i us s).0 ≡ new ++ s.0)
      × All (IsIssuedTo k us) new
unfolding create_many
create_many-adds k i [] s = ([], refl, tt)
create_many-adds k i (u ∷ us) (hs, last) =
    let h = issued_history (suc last) k u i in
    let (new, added, all) = create_many-adds k i us (h ∷ hs, suc last) in
    (
      new ++ h ∷ [],
      added ∙ sym (append_assoc new (h ∷ []) hs),
      All-snoc (IsIssuedTo k (u ∷ us)) new h (named_too k u us new all)
          (refl, ground (arith, (==_iff u u).1 refl), refl),
    )

-- A successful issuing gives each user one coupon for each time that the request names them, and a
-- user who is named held none of this coupon before. All rows that were there stay as they are:
-- the new ones stand in front of them, and are issued ones of this coupon for users who are named.
pub issue_coupon-held :
    (k : ℕ) (us : List ℕ) (coupons : List Coupon) (now : ℕ) (s : Histories) {n : ℕ} {s' : Histories}
    → issue_coupon k us coupons now s ≡ ok (n, s')
    → ((v : ℕ) → contains v us ≡ true → held k v s.0 ≡ 0)
      × ((j v : ℕ) → held j v s'.0 ≡ held j v s.0 + given j v k 1 us)
      × ((new : List CouponHistory) × (s'.0 ≡ new ++ s.0) × All (IsIssuedTo k us) new)
unfolding create_bulk
issue_coupon-held k us coupons now s h =
    let (c, valid, free, made) = issue_coupon-eq-ok k us coupons now s h in
    (
      λ v named. held-any k v us s.0 named free,
      λ j v. ap (λ r. held j v r.0) made ∙ held-create_many j v k _ us s,
      rw made (create_many-adds k (one_issue no_period now) us s),
    )

-- After a successful issuing the same coupon cannot be issued again, then or later, to users one
-- of whom has just received it.
pub issue_coupon-again :
    (k v : ℕ) (us us' : List ℕ) (coupons : List Coupon) (now later : ℕ) (s : Histories) {n : ℕ}
    {s' : Histories}
    → issue_coupon k us coupons now s ≡ ok (n, s')
    → contains v us ≡ true
    → contains v us' ≡ true
    → issue_coupon k us' coupons later s' ≡ err (bad_request coupon_already_issued)
unfolding issue_coupon create_bulk check_duplicate_issuance
issue_coupon-again k v us us' coupons now later (hs, last) {n} {s'} h named named' =
    let (c, valid, free, made) = issue_coupon-eq-ok k us coupons now (hs, last) h in
    let taken =
      create_many-is_duplicate k v (one_issue no_period now) us us' (hs, last) named named' in
    rw (made, valid, taken) refl
