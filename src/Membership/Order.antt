-- ===== src/Membership/Order.antt =====
-- The order in which the tiers are read: a rearrangement of the table, dearest first.
use lif_low_backend.Prelude.{
  Listed, ◌≤◌, true, false, ◌≡◌, List, [], ◌∷◌, arith, filter, All, Bool-cases, inl, inr, subst,
  ◌⊎◌,
}
use lif_low_backend.Schema.{Membership}
use lif_low_backend.Membership.{
  is_valid_tier, price_of, comes_before, insert_tier, by_min_price_desc,
}

-- Every tier comes before all that stand behind it.
abbrev IsOrdered : List Membership → Type 0
IsOrdered [] = Unit
IsOrdered (t ∷ tiers) = All (λ u. comes_before t u ≡ true) tiers × IsOrdered tiers

comes_before_trans :
    (a b c : Membership)
    → comes_before a b ≡ true
    → comes_before b c ≡ true
    → comes_before a c ≡ true
comes_before_trans a b c h k = ground arith

comes_before_total : (a b : Membership) → comes_before a b ≡ false → comes_before b a ≡ true
comes_before_total a b h = ground arith

All-comes_before :
    (a b : Membership) (tiers : List Membership)
    → comes_before a b ≡ true
    → All (λ u. comes_before b u ≡ true) tiers
    → All (λ u. comes_before a u ≡ true) tiers
All-comes_before a b [] h k = tt
All-comes_before a b (t ∷ tiers) h k =
    (comes_before_trans a b t h k.0, All-comes_before a b tiers h k.1)

All-insert_tier :
    (a t : Membership) (tiers : List Membership)
    → comes_before a t ≡ true
    → All (λ u. comes_before a u ≡ true) tiers
    → All (λ u. comes_before a u ≡ true) (insert_tier t tiers)
unfolding insert_tier
All-insert_tier a t [] h k = (h, tt)
All-insert_tier a t (u ∷ tiers) h k = elim (Bool-cases (comes_before t u)) [
  | inl e ↦ rw e (h, k)
  | inr e ↦ rw e (k.0, All-insert_tier a t tiers h k.1)
]

insert_tier-IsOrdered :
    (t : Membership) (tiers : List Membership) → IsOrdered tiers → IsOrdered (insert_tier t tiers)
unfolding insert_tier
insert_tier-IsOrdered t [] h = (tt, tt)
insert_tier-IsOrdered t (u ∷ tiers) h = elim (Bool-cases (comes_before t u)) [
  | inl e ↦ rw e ((e, All-comes_before t u tiers e h.0), h)
  | inr e ↦
      rw e (
        All-insert_tier u t tiers (comes_before_total t u e) h.0,
        insert_tier-IsOrdered t tiers h.1,
      )
]

pub by_min_price_desc-IsOrdered : (tiers : List Membership) → IsOrdered (by_min_price_desc tiers)
unfolding by_min_price_desc
by_min_price_desc-IsOrdered [] = tt
by_min_price_desc-IsOrdered (t ∷ tiers) =
    insert_tier-IsOrdered t (by_min_price_desc tiers) (by_min_price_desc-IsOrdered tiers)

-- The valid tiers, dearest first, by their prices.
abbrev pub IsDescending : List Membership → Type 0
IsDescending [] = Unit
IsDescending (t ∷ tiers) = All (λ u. price_of u ≤ price_of t) tiers × IsDescending tiers

insert_later :
    (u t x : Membership) (tiers : List Membership)
    → ((u ≡ t) ⊎ Listed u tiers → Listed u (insert_tier t tiers))
    → (u ≡ t) ⊎ Listed u (x ∷ tiers)
    → (u ≡ x) ⊎ Listed u (insert_tier t tiers)
insert_later u t x tiers ih (inl q) = inr (ih (inl q))
insert_later u t x tiers ih (inr (inl q)) = inl q
insert_later u t x tiers ih (inr (inr q)) = inr (ih (inr q))

Listed-insert_tier :
    (u t : Membership) (tiers : List Membership)
    → (u ≡ t) ⊎ Listed u tiers
    → Listed u (insert_tier t tiers)
unfolding insert_tier
Listed-insert_tier u t [] h = h
Listed-insert_tier u t (x ∷ tiers) h = elim (Bool-cases (comes_before t x)) [
  | inl e ↦ rw e h
  | inr e ↦ rw e (insert_later u t x tiers (λ q. Listed-insert_tier u t tiers q) h)
]

Listed-by_min_price_desc :
    (u : Membership) (tiers : List Membership) → Listed u tiers → Listed u (by_min_price_desc tiers)
unfolding by_min_price_desc
Listed-by_min_price_desc u [] h = elim h [ ]
Listed-by_min_price_desc u (t ∷ tiers) (inl q) =
    Listed-insert_tier u t (by_min_price_desc tiers) (inl q)
Listed-by_min_price_desc u (t ∷ tiers) (inr q) =
    Listed-insert_tier u t (by_min_price_desc tiers) (inr (Listed-by_min_price_desc u tiers q))

Listed-filter :
    (u : Membership) (tiers : List Membership)
    → Listed u tiers
    → is_valid_tier u ≡ true
    → Listed u (filter is_valid_tier tiers)
Listed-filter u [] h v = elim h [ ]
Listed-filter u (t ∷ tiers) (inl q) v = rw (subst (λ x. is_valid_tier x ≡ true) q v) (inl q)
Listed-filter u (t ∷ tiers) (inr q) v = elim (Bool-cases (is_valid_tier t)) [
  | inl e ↦ rw e (inr (Listed-filter u tiers q v))
  | inr e ↦ rw e (Listed-filter u tiers q v)
]

pub Listed-valid :
    (u : Membership) (tiers : List Membership)
    → Listed u tiers
    → is_valid_tier u ≡ true
    → Listed u (filter is_valid_tier (by_min_price_desc tiers))
Listed-valid u tiers h v =
    Listed-filter u (by_min_price_desc tiers) (Listed-by_min_price_desc u tiers h) v

price-le :
    (t u : Membership)
    → is_valid_tier t ≡ true
    → is_valid_tier u ≡ true
    → comes_before t u ≡ true
    → price_of u ≤ price_of t
price-le t u v w h = ground arith

All-filter :
    (t : Membership) (tiers : List Membership)
    → is_valid_tier t ≡ true
    → All (λ u. comes_before t u ≡ true) tiers
    → All (λ u. price_of u ≤ price_of t) (filter is_valid_tier tiers)
All-filter t [] v h = tt
All-filter t (u ∷ tiers) v h = elim (Bool-cases (is_valid_tier u)) [
  | inl e ↦ rw e (price-le t u v e h.0, All-filter t tiers v h.1)
  | inr e ↦ rw e (All-filter t tiers v h.1)
]

IsDescending-filter :
    (tiers : List Membership) → IsOrdered tiers → IsDescending (filter is_valid_tier tiers)
IsDescending-filter [] h = tt
IsDescending-filter (t ∷ tiers) h = elim (Bool-cases (is_valid_tier t)) [
  | inl e ↦ rw e (All-filter t tiers e h.0, IsDescending-filter tiers h.1)
  | inr e ↦ rw e (IsDescending-filter tiers h.1)
]

-- The valid tiers are read dearest first.
pub valid-IsDescending :
    (tiers : List Membership) → IsDescending (filter is_valid_tier (by_min_price_desc tiers))
valid-IsDescending tiers = IsDescending-filter _ (by_min_price_desc-IsOrdered tiers)
