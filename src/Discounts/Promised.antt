-- ===== src/Discounts/Promised.antt =====
-- The sale price that a product is promised: the special price while the special offer runs, less
-- the rate while the discount runs, and never below zero. The prices that
-- src/modules/product-discount/cronjob/product-discount.cronjob.service.ts computes are this one.
use mathlib.Core.Option
use lif_low_backend.Prelude.{
  ℕ, ◌≤◌, ◌≡◌, refl, ap, sym, ◌∙◌, ℤ, pos, ◌≤ℤ◌, Bool, true, false, ◌&&◌, ◌||◌, not, Option, none,
  some, if◌then◌else◌, get_or, inl, inr, arith, Bool-cases,
}
use lif_low_backend.Discounts.{
  ProductDiscount, ProductSpecialOffer, at_least_zero, active_discount, active_offer, is_past,
  discount_expired, offer_expired, sale_price_of, restored_sale_price, discount_should,
  offer_should,
}
use lif_low_backend.Discounts.Statuses.{settled_discount, settled_offer}

-- The period of the promotion includes the moment of its status, and has not ended when the
-- prices are computed.
abbrev pub discount_runs : ℕ → ℕ → ProductDiscount → Bool
discount_runs now later d = discount_should now d && not (is_past d.discount_end_date later)

abbrev pub offer_runs : ℕ → ℕ → ProductSpecialOffer → Bool
offer_runs now later o = offer_should now o && not (is_past o.end_date later)

abbrev pub kept_if {ℓ} : {A : Type ℓ} → (A → Bool) → Option A → Option A
kept_if p none = none
kept_if p (some a) = if p a then some a else none

-- The price before the rate.
abbrev pub base_price : ℕ → Option ProductSpecialOffer → ℤ
base_price consumer_price none = pos consumer_price
base_price consumer_price (some o) = get_or o.special_price_applied (pos consumer_price)

abbrev pub after_rate : (ℤ → ℕ → ℤ) → Option ProductDiscount → ℤ → ℤ
after_rate rounded none z = z
after_rate rounded (some d) z = rounded z d.discount_rate

abbrev pub promised_price :
    (ℤ → ℕ → ℤ) → ℕ → Option ProductDiscount → Option ProductSpecialOffer → ℤ
promised_price rounded consumer_price d o =
    at_least_zero (after_rate rounded d (base_price consumer_price o))

-- The rate is at most 100, which the requests of src/modules/product-discount ask for; those of
-- src/modules/product, with which a product is made with a discount, set no maximum.
abbrev pub HasRate : Option ProductDiscount → Type 0
HasRate none = Unit
HasRate (some d) = d.discount_rate ≤ 100

-- A rate of at most 100 does not make a price negative.
abbrev pub IsRate : (ℤ → ℕ → ℤ) → Type 0
IsRate rounded = (p r : ℕ) → r ≤ 100 → pos 0 ≤ℤ rounded (pos p) r

at_least_zero_same : (z : ℤ) → pos 0 ≤ℤ z → at_least_zero z ≡ z
at_least_zero_same z h = ground arith

and_true : (b : Bool) → (b && true) ≡ b
and_true true = refl
and_true false = refl

and_false : (b : Bool) → (b && false) ≡ false
and_false true = refl
and_false false = refl

module _ (rounded : ℤ → ℕ → ℤ) (consumer_price : ℕ) where
  floored :
      (d : Option ProductDiscount) (o : Option ProductSpecialOffer)
      → at_least_zero (sale_price_of rounded consumer_price d o)
        ≡ promised_price rounded consumer_price d o
  unfolding sale_price_of
  floored none none = refl
  floored none (some o) = refl
  floored (some d) none = refl
  floored (some d) (some o) = refl

  unfloored :
      IsRate rounded
      → (d : Option ProductDiscount) (o : Option ProductSpecialOffer) → HasRate d
      → sale_price_of rounded consumer_price d o ≡ promised_price rounded consumer_price d o
  unfolding sale_price_of
  unfloored rate none none h = refl
  unfloored rate none (some o) h = refl
  unfloored rate (some d) none h =
      sym (at_least_zero_same _ (rate consumer_price d.discount_rate h))
  unfloored rate (some d) (some o) h = refl

-- A discount whose status was set and that has not expired lowers the price just if it runs.
live_discount :
    (rounded : ℤ → ℕ → ℤ) (z : ℤ) (now later : ℕ) (d : Option ProductDiscount)
    → after_rate rounded
        (if discount_expired later (Option.map (settled_discount now) d)
          then none
          else active_discount (Option.map (settled_discount now) d))
        z
      ≡ after_rate rounded (kept_if (discount_runs now later) d) z
live_discount rounded z now later none = refl
live_discount rounded z now later (some d) = elim (Bool-cases (is_past d.discount_end_date later)) [
  | inl past ↦ rw (past, and_false (discount_should now d)) refl
  | inr open_ ↦
      rw (open_, and_true (discount_should now d))
        (elim (Bool-cases (discount_should now d)) [ inl e ↦ rw e refl | inr e ↦ rw e refl ])
]

live_offer :
    (consumer_price now later : ℕ) (o : Option ProductSpecialOffer)
    → base_price consumer_price (
        if offer_expired later (Option.map (settled_offer now) o)
        then none
        else active_offer (Option.map (settled_offer now) o))
      ≡ base_price consumer_price (kept_if (offer_runs now later) o)
live_offer consumer_price now later none = refl
live_offer consumer_price now later (some o) = elim (Bool-cases (is_past o.end_date later)) [
  | inl past ↦ rw (past, and_false (offer_should now o)) refl
  | inr open_ ↦
      rw (open_, and_true (offer_should now o))
        (elim (Bool-cases (offer_should now o)) [ inl e ↦ rw e refl | inr e ↦ rw e refl ])
]

HasRate-active :
    (now : ℕ) (d : Option ProductDiscount)
    → HasRate d
    → HasRate (active_discount (Option.map (settled_discount now) d))
HasRate-active now none h = tt
HasRate-active now (some d) h = elim (Bool-cases (discount_should now d)) [
  | inl e ↦ rw e h
  | inr e ↦ rw e tt
]

or_false : (a b : Bool) → a || b ≡ false → (a ≡ false) × (b ≡ false)
or_false true b h = cc
or_false false b h = (refl, h)

-- The price of a round, after the statuses were set, is the promised one.
pub price-promised :
    (rounded : ℤ → ℕ → ℤ) (consumer_price t1 t2 later : ℕ) (d : Option ProductDiscount)
    (o : Option ProductSpecialOffer)
    → IsRate rounded
    → HasRate d
    → (if offer_expired later (Option.map (settled_offer t2) o)
          || discount_expired later (Option.map (settled_discount t1) d)
        then restored_sale_price rounded later consumer_price
            (Option.map (settled_discount t1) d)
            (Option.map (settled_offer t2) o)
        else sale_price_of rounded consumer_price
            (active_discount (Option.map (settled_discount t1) d))
            (active_offer (Option.map (settled_offer t2) o)))
      ≡ promised_price rounded consumer_price
          (kept_if (discount_runs t1 later) d)
          (kept_if (offer_runs t2 later) o)
unfolding restored_sale_price
price-promised rounded consumer_price t1 t2 later d o rate h =
    let d' = Option.map (settled_discount t1) d in
    let o' = Option.map (settled_offer t2) o in
    let same : promised_price rounded consumer_price
          (if discount_expired later d' then none else active_discount d')
          (if offer_expired later o' then none else active_offer o')
        ≡ promised_price rounded consumer_price (kept_if (discount_runs t1 later) d)
            (kept_if (offer_runs t2 later) o) =
      ap at_least_zero (
        live_discount rounded
          (base_price consumer_price (if offer_expired later o' then none else active_offer o')) t1
          later d
        ∙ ap (after_rate rounded (kept_if (discount_runs t1 later) d))
            (live_offer consumer_price t2 later o)) in
    elim (Bool-cases (offer_expired later o' || discount_expired later d')) [
      | inl old ↦ rw old (
          floored rounded consumer_price
            (if discount_expired later d' then none else active_discount d')
            (if offer_expired later o' then none else active_offer o')
          ∙ same)
      | inr new ↦
          let (e, f) = or_false (offer_expired later o') (discount_expired later d') new in
          rw new (
            unfloored rounded consumer_price rate (active_discount d') (active_offer o')
              (HasRate-active t1 d h)
            ∙ rw (e, f) at same)
    ]
