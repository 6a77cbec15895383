-- ===== src/Prelude/Lists.antt =====
-- Lists measured by native numbers, filtered by a Boolean test, and summed.
use Prim.Native.Nat.{ℕ, suc, ◌+◌}
use mathlib.Core.Path.{◌≡◌, sym, subst}
use mathlib.Core.Logic.{◌⊎◌, inl, inr}
use mathlib.Core.Bool.{Bool, true, false, ◌||◌}
use mathlib.Core.List.{List, [], ◌∷◌}
use mathlib.Core.Option.{Option, none, some}
use native.Mathlib.Omega.{arith}
use lif_low_backend.Prelude.Tests.{if◌then◌else◌, ◌==◌, ==_iff, Bool-cases}

module _ {ℓ} {A : Type ℓ} where
  abbrev pub length : List A → ℕ
  length [] = 0
  length (_ ∷ xs) = suc (length xs)

  abbrev pub is_empty : List A → Bool
  is_empty [] = true
  is_empty (_ ∷ _) = false

  -- `xs.filter(p)`
  abbrev pub filter : (A → Bool) → List A → List A
  filter p [] = []
  filter p (x ∷ xs) = if p x then x ∷ filter p xs else filter p xs

  -- `xs.find(p)`
  abbrev pub find : (A → Bool) → List A → Option A
  find p [] = none
  find p (x ∷ xs) = if p x then some x else find p xs

  -- The sum of a quantity over a list.
  abbrev pub sum_by : (A → ℕ) → List A → ℕ
  sum_by f [] = 0
  sum_by f (x ∷ xs) = f x + sum_by f xs

  abbrev pub any : (A → Bool) → List A → Bool
  any p [] = false
  any p (x ∷ xs) = p x || any p xs

  abbrev pub All {κ} : (A → Type κ) → List A → Type κ
  All P [] = Unit
  All P (x ∷ xs) = P x × All P xs

-- `a` stands in the list.
abbrev pub Listed : {A : Type 0} → A → List A → Type 0
Listed a [] = ⊥
Listed a (x ∷ xs) = (a ≡ x) ⊎ Listed a xs

pub Listed-All : {A : Type 0} (a : A) (P : A → Type 0) (xs : List A) → Listed a xs → All P xs → P a
Listed-All a P [] h p = elim h [ ]
Listed-All a P (x ∷ xs) (inl q) p = subst P (sym q) p.0
Listed-All a P (x ∷ xs) (inr q) p = Listed-All a P xs q p.1

-- `xs.includes(k)`
abbrev pub contains : ℕ → List ℕ → Bool
contains k [] = false
contains k (j ∷ js) = j == k || contains k js

-- `[...new Set(ids)]`, after the identifiers that were seen.
unfoldable pub unique : List ℕ → List ℕ → List ℕ
unique seen [] = []
unique seen (u ∷ us) =
    let fresh = unique (u ∷ seen) us in
    let rest = unique seen us in if contains u seen then rest else u ∷ fresh

-- No identifier twice.
abbrev pub AreDistinct : List ℕ → Type 0
AreDistinct [] = Unit
AreDistinct (k ∷ ks) = (contains k ks ≡ false) × AreDistinct ks

pub another :
    (j k : ℕ) (ks : List ℕ) → contains k ks ≡ false → contains j ks ≡ true → (j == k) ≡ false
another j k ks h i = elim (Bool-cases (j == k)) [
  | inl same ↦ let q : j ≡ k = (==_iff j k).0 same in cc (rw (← q) at h)
  | inr other ↦ other
]

pub listed_here : (k : ℕ) (ks : List ℕ) → contains k (k ∷ ks) ≡ true
listed_here k ks = ground arith

pub listed_later : (j k : ℕ) (ks : List ℕ) → contains j ks ≡ true → contains j (k ∷ ks) ≡ true
listed_later j k ks h = ground arith

-- What is listed stands at the head or after it.
pub listed-cases :
    (j k : ℕ) (ks : List ℕ) → contains j (k ∷ ks) ≡ true → (k ≡ j) ⊎ (contains j ks ≡ true)
listed-cases j k ks h = elim (Bool-cases (k == j)) [
  | inl same ↦ inl ((==_iff k j).0 same)
  | inr other ↦ inr (rw other at h)
]
