-- ===== src/Discounts/Statuses.antt =====
-- The loops over the statuses of discounts and of special offers: every row that they visit gets
-- the status that its period asks for.
use mathlib.Core.Option
use lif_low_backend.Prelude.{
  ℕ, ◌≡◌, ◌⊎◌, inl, inr, refl, ap, sym, ◌∙◌, Bool, true, false, some, List, [], ◌∷◌, ◌==◌,
  if◌then◌else◌, contains, arith, Bool-cases, Option-cases, ==_iff,
}
use lif_low_backend.Schema.{Table, put}
use lif_low_backend.Discounts.{
  ProductDiscount, ProductSpecialOffer, Catalogue, Tally, no_tally, one_changed, same_status,
  update_status, update_statuses, set_discount_status, discount_should, set_offer_status,
  offer_should, update_all_product_discount_statuses, update_all_product_special_offer_statuses,
}

one_changed-errors : (b : Bool) (n : Tally) → (one_changed b n).errors ≡ n.errors
one_changed-errors true n = refl
one_changed-errors false n = refl

same_status-eq : (a b : Bool) → same_status a b ≡ true → a ≡ b
same_status-eq true b h = sym h
same_status-eq false true h = cc
same_status-eq false false h = refl

module _ {R : Type 0} (status : R → Bool) (set_status : Bool → R → R) (should : R → Bool)
    (unchanged : (r : R) → same_status (status r) (should r) ≡ true → set_status (should r) r ≡ r)
    (set_twice : (b : Bool) (r : R) → set_status b (set_status b r) ≡ set_status b r) where
  -- The row with the status that it should have.
  abbrev settled : R → R
  settled r = set_status (should r) r

  -- A row is as it was, or has been visited.
  abbrev IsBetween : Table R → Table R → Type 0
  IsBetween before t = (j : ℕ) → (t j ≡ before j) ⊎ (t j ≡ Option.map settled (before j))

  put-settled :
      (before t : Table R) (k : ℕ) {r x : R}
      → before k ≡ some r
      → set_status (should r) x ≡ settled r
      → (j : ℕ)
      → put k (set_status (should r) x) t j
        ≡ (if j == k then Option.map settled (before j) else t j)
  put-settled before t k {r} {x} e q j = elim (Bool-cases (j == k)) [
    | inl same ↦ rw same (let i : j ≡ k = (==_iff j k).0 same in rw (i, e, q))
    | inr other ↦ rw other
  ]

  kept-settled :
      (before t : Table R) (k : ℕ)
      → t k ≡ Option.map settled (before k)
      → (j : ℕ) → t j ≡ (if j == k then Option.map settled (before j) else t j)
  kept-settled before t k e j = elim (Bool-cases (j == k)) [
    | inl same ↦ rw same (let i : j ≡ k = (==_iff j k).0 same in rw i e)
    | inr other ↦ rw other
  ]

  written-settled : (r x : R) → (x ≡ r) ⊎ (x ≡ settled r) → set_status (should r) x ≡ settled r
  written-settled r x (inl q) = ap (set_status (should r)) q
  written-settled r x (inr q) = ap (set_status (should r)) q ∙ set_twice (should r) r

  found :
      (before t : Table R) (k : ℕ) {r : R}
      → before k ≡ some r
      → (t k ≡ before k) ⊎ (t k ≡ Option.map settled (before k))
      → (x : R) × (t k ≡ some x) × ((x ≡ r) ⊎ (x ≡ settled r))
  found before t k {r} e (inl q) = (r, q ∙ e, inl refl)
  found before t k {r} e (inr q) = (settled r, q ∙ ap (Option.map settled) e, inr refl)

  -- One round settles the row that it visits, and counts no error.
  update_status-settles :
      (before : Table R) (k : ℕ) (t : Table R) (n : Tally)
      → IsBetween before t
      → ((j : ℕ)
          → (update_status status set_status should before k (t, n)).0 j
            ≡ (if j == k then Option.map settled (before j) else t j))
        × ((update_status status set_status should before k (t, n)).1.errors ≡ n.errors)
  unfolding update_status
  update_status-settles before k t n b = elim (Option-cases (before k)) [
    | inl e ↦
        rw (e, update_status)
          (kept-settled before t k (elim (b k) [ inl q ↦ rw (q, e) | inr q ↦ q ]), refl)
    | inr (r, e) ↦ elim (Bool-cases (same_status (status r) (should r))) [
      | inl same ↦
          rw (e, same, update_status)
            (
              kept-settled before t k (
                  let u : Option.map settled (before k) ≡ some r =
                    rw e (ap some (unchanged r same)) in
                  elim (b k) [ inl q ↦ q ∙ e ∙ sym u | inr q ↦ q ]),
              refl,
            )
      | inr differs ↦
          let (x, there, which) = found before t k e (b k) in
          rw (e, differs, there, update_status)
            (put-settled before t k e (written-settled r x which), one_changed-errors (should r) n)
    ]
  ]

  IsBetween-step :
      (before : Table R) (k : ℕ) (t t' : Table R)
      → IsBetween before t
      → ((j : ℕ) → t' j ≡ (if j == k then Option.map settled (before j) else t j))
      → IsBetween before t'
  IsBetween-step before k t t' b here j = elim (Bool-cases (j == k)) [
    | inl same ↦ inr (here j ∙ rw same)
    | inr other ↦
        let q : t' j ≡ t j = here j ∙ rw other in
        elim (b j) [ inl p ↦ inl (q ∙ p) | inr p ↦ inr (q ∙ p) ]
  ]

  after :
      (before : Table R) (k : ℕ) (ks : List ℕ) (t t' : Table R) {j : ℕ}
      → t' j ≡ (if j == k then Option.map settled (before j) else t j)
      → (if contains j ks then Option.map settled (before j) else t' j)
        ≡ (if contains j (k ∷ ks) then Option.map settled (before j) else t j)
  after before k ks t t' {j} h = ground arith

  -- The loop settles the rows that it visits and no other.
  update_statuses-settles :
      (before : Table R) (ks : List ℕ) (t : Table R) (n : Tally)
      → IsBetween before t
      → ((j : ℕ)
          → (update_statuses status set_status should before ks (t, n)).0 j
            ≡ (if contains j ks then Option.map settled (before j) else t j))
        × ((update_statuses status set_status should before ks (t, n)).1.errors ≡ n.errors)
  unfolding update_statuses
  update_statuses-settles before [] t n b = (λ j. refl, refl)
  update_statuses-settles before (k ∷ ks) t n b =
      let (t', n') = update_status status set_status should before k (t, n) in
      let (here, fine) = update_status-settles before k t n b in
      let (there, well) =
        update_statuses-settles before ks t' n' (IsBetween-step before k t t' b here) in
      (λ j. there j ∙ after before k ks t t' (here j), well ∙ fine)

discount_unchanged :
    (now : ℕ) (d : ProductDiscount)
    → same_status d.status (discount_should now d) ≡ true
    → set_discount_status (discount_should now d) d ≡ d
discount_unchanged now d h =
    ap (λ b. set_discount_status b d) (sym (same_status-eq d.status (discount_should now d) h))

offer_unchanged :
    (now : ℕ) (o : ProductSpecialOffer)
    → same_status o.status (offer_should now o) ≡ true
    → set_offer_status (offer_should now o) o ≡ o
offer_unchanged now o h =
    ap (λ b. set_offer_status b o) (sym (same_status-eq o.status (offer_should now o) h))

-- The discount as its period asks for.
abbrev pub settled_discount : ℕ → ProductDiscount → ProductDiscount
settled_discount now d = set_discount_status (discount_should now d) d

abbrev pub settled_offer : ℕ → ProductSpecialOffer → ProductSpecialOffer
settled_offer now o = set_offer_status (offer_should now o) o

-- Every discount that the job visits is active just if its period includes the moment, the others
-- and all else stay, and no error is counted.
pub update_all_product_discount_statuses_lem :
    (ids : List ℕ) (now : ℕ) (c : Catalogue)
    → ((j : ℕ)
        → (update_all_product_discount_statuses ids now c).0.discounts j ≡ (
            if contains j ids
            then Option.map (settled_discount now) (c.discounts j)
            else c.discounts j))
      × ((update_all_product_discount_statuses ids now c).1.errors ≡ 0)
unfolding update_all_product_discount_statuses
update_all_product_discount_statuses_lem ids now c =
    update_statuses-settles (λ (d : ProductDiscount). d.status) set_discount_status
      (discount_should now) (discount_unchanged now) (λ b d. refl) c.discounts ids c.discounts
      no_tally (λ j. inl refl)

pub update_all_product_special_offer_statuses_lem :
    (ids : List ℕ) (now : ℕ) (c : Catalogue)
    → ((j : ℕ)
        → (update_all_product_special_offer_statuses ids now c).0.offers j
          ≡ (if contains j ids then Option.map (settled_offer now) (c.offers j) else c.offers j))
      × ((update_all_product_special_offer_statuses ids now c).1.errors ≡ 0)
unfolding update_all_product_special_offer_statuses
update_all_product_special_offer_statuses_lem ids now c =
    update_statuses-settles (λ (o : ProductSpecialOffer). o.status) set_offer_status
      (offer_should now) (offer_unchanged now) (λ b o. refl) c.offers ids c.offers no_tally
      (λ j. inl refl)
