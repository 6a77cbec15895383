-- ===== src/Discounts/Rounds.antt =====
-- Every round of the loop over the sale prices goes through
-- (src/modules/product-discount/cronjob/product-discount.cronjob.service.ts).
use mathlib.Core.Option
use lif_low_backend.Prelude.{
  ℕ, ◌≡◌, refl, sym, ◌∙◌, ℤ, Bool, true, false, ◌&&◌, ◌||◌, suc, Option, none, some, ◌==◌,
  if◌then◌else◌, inl, inr, Bool-cases, Option-cases,
}
use lif_low_backend.Schema.{Table, ok}
use lif_low_backend.Discounts.{
  Prices, ProductDiscount, Catalogue, differs, with_sale_price, active_discount, active_offer,
  discount_expired, set_price, sale_price_of, restored_sale_price, restore_price, recalculate_price,
}
use lif_low_backend.Discounts.SalePrices.{
  PriceTally, has_promotion, one_price, is_expired, reprice, reprice_product,
}
use lif_low_backend.Discounts.Repriced.{
  set_price_lem, new_price, repriced, is_priced, remaining, IsRound, one_price-errors, at_k, stays,
}

false-true : false ≡ true → ⊥
false-true h = cc

neither : (a b : Bool) → a || b ≡ false → b ≡ false
neither true b h = cc
neither false b h = h

either_way : {A : Type 0} (b : Bool) (o : Option A) → (if b then o else o) ≡ o
either_way true o = refl
either_way false o = refl

module _ (rounded : ℤ → ℕ → ℤ) (now : ℕ) (before : Catalogue) (k : ℕ) (c : Catalogue)
    (n : PriceTally) (same_product : c.products k ≡ before.products k)
    (same_discount : c.discounts k ≡ before.discounts k) where
  -- A product that the loop passes over.
  passed :
      (m : PriceTally)
      → Option.map (repriced rounded now before k) (before.products k) ≡ before.products k
      → remaining now before k ≡ before.discounts k
      → m.errors ≡ n.errors
      → IsRound rounded now before k (c, n) (c, m)
  passed m p d e = (
    at_k k c.products c.products
        (λ j. Option.map (repriced rounded now before j) (before.products j))
        (stays k c.products (c.products k) refl) (same_product ∙ sym p),
    at_k k c.discounts c.discounts (λ j. remaining now before j)
        (stays k c.discounts (c.discounts k) refl) (same_discount ∙ sym d),
    refl,
    e,
  )

  without_promotion :
      (p : Prices)
      → before.products k ≡ some p
      → has_promotion k before ≡ false
      → Option.map (repriced rounded now before k) (before.products k) ≡ before.products k
  without_promotion p e has = elim (Option-cases p.consumer_price) [
    | inl q ↦ rw (e, q) refl
    | inr (cp, q) ↦ rw (e, q, has) refl
  ]

  no_discount : has_promotion k before ≡ false → remaining now before k ≡ before.discounts k
  no_discount has = elim (Option-cases (before.discounts k)) [
    | inl e ↦ rw e (either_way (is_priced (before.products k) && false) none)
    | inr (d, e) ↦ absurd (false-true (rw (e, has_promotion) at (sym has)))
  ]

  module _ (p : Prices) (consumer_price : ℕ) (e : before.products k ≡ some p)
      (q : p.consumer_price ≡ some consumer_price) (has : has_promotion k before ≡ true) where
    is-repriced :
        some (with_sale_price (new_price rounded now before k consumer_price) p)
        ≡ Option.map (repriced rounded now before k) (before.products k)
    is-repriced = rw (e, q, has) refl

    remaining_kept :
        discount_expired now (before.discounts k) ≡ false
        → remaining now before k ≡ before.discounts k
    remaining_kept x = rw (e, q, x) refl

    remaining_gone :
        discount_expired now (before.discounts k) ≡ true → remaining now before k ≡ none
    remaining_gone x = rw (e, q, x) refl

    kept-IsRound :
        (m : PriceTally) (t' : Table Prices)
        → ((j : ℕ)
            → t' j ≡ (
                if j == k
                then some (with_sale_price (new_price rounded now before k consumer_price) p)
                else c.products j))
        → discount_expired now (before.discounts k) ≡ false
        → m.errors ≡ n.errors
        → IsRound rounded now before k (c, n) (record c { products = t' }, m)
    kept-IsRound m t' h x f = (
      at_k k c.products t' (λ j. Option.map (repriced rounded now before j) (before.products j)) h
          is-repriced,
      at_k k c.discounts c.discounts (λ j. remaining now before j)
          (stays k c.discounts (c.discounts k) refl) (same_discount ∙ sym (remaining_kept x)),
      refl,
      f,
    )

    gone-IsRound :
        (m : PriceTally) (t' : Table Prices)
        → ((j : ℕ)
            → t' j ≡ (
                if j == k
                then some (with_sale_price (new_price rounded now before k consumer_price) p)
                else c.products j))
        → discount_expired now (before.discounts k) ≡ true
        → m.errors ≡ n.errors
        → IsRound rounded now before k
            (c, n)
            (record c { products = t'; discounts = λ j. if j == k then none else c.discounts j }, m)
    gone-IsRound m t' h x f = (
      at_k k c.products t' (λ j. Option.map (repriced rounded now before j) (before.products j)) h
          is-repriced,
      at_k k c.discounts (λ j. if j == k then none else c.discounts j) (λ j. remaining now before j)
          (λ j. refl) (sym (remaining_gone x)),
      refl,
      f,
    )

    live_price : ℤ
    live_price =
        sale_price_of rounded consumer_price (active_discount (before.discounts k))
          (active_offer (before.offers k))

    old_price : ℤ
    old_price =
        restored_sale_price rounded now consumer_price (before.discounts k) (before.offers k)

    reprice-live :
        (t' : Table Prices)
        → is_expired now k before ≡ false
        → set_price k p live_price c.products ≡ ok t'
        → reprice rounded now before k p consumer_price (c, n)
          ≡ (record c { products = t' }, one_price (differs p.sale_price live_price) n)
    unfolding reprice recalculate_price live_price
    reprice-live t' live sets = rw (live, sets) refl

    reprice-kept :
        (t' : Table Prices)
        → is_expired now k before ≡ true
        → discount_expired now (before.discounts k) ≡ false
        → set_price k p old_price c.products ≡ ok t'
        → reprice rounded now before k p consumer_price (c, n)
          ≡ (record c { products = t' }, one_price (differs p.sale_price old_price) n)
    unfolding reprice restore_price old_price
    reprice-kept t' old x sets = rw (old, sets, x) refl

    reprice-gone :
        (t' : Table Prices) {d : ProductDiscount}
        → is_expired now k before ≡ true
        → discount_expired now (before.discounts k) ≡ true
        → c.discounts k ≡ some d
        → set_price k p old_price c.products ≡ ok t'
        → reprice rounded now before k p consumer_price (c, n) ≡ (
          record c { products = t'; discounts = λ j. if j == k then none else c.discounts j },
          one_price (differs p.sale_price old_price) n,
        )
    unfolding reprice restore_price old_price
    reprice-gone t' old x there sets = rw (old, sets, x, there) refl

    expired_discount :
        discount_expired now (before.discounts k) ≡ true
        → (d : ProductDiscount) × (before.discounts k ≡ some d)
    expired_discount x = elim (Option-cases (before.discounts k)) [
      | inl none_there ↦ absurd (false-true (rw none_there at x))
      | inr (d, there) ↦ (d, there)
    ]

    reprice-IsRound :
        IsRound rounded now before k (c, n) (reprice rounded now before k p consumer_price (c, n))
    unfolding live_price old_price
    reprice-IsRound = elim (Bool-cases (is_expired now k before)) [
      | inl old ↦
          let (t', sets, h) = set_price_lem k p old_price c.products (same_product ∙ e) in
          let h' = λ (j : ℕ). h j ∙ rw old refl in
          let m = one_price (differs p.sale_price old_price) n in
          let fine = one_price-errors (differs p.sale_price old_price) n in
          elim (Bool-cases (discount_expired now (before.discounts k))) [
            | inl x ↦
                let (d, there) = expired_discount x in
                rw (reprice-gone t' old x (same_discount ∙ there) sets)
                  (gone-IsRound m t' h' x fine)
            | inr x ↦ rw (reprice-kept t' old x sets) (kept-IsRound m t' h' x fine)
          ]
      | inr live ↦
          let (t', sets, h) = set_price_lem k p live_price c.products (same_product ∙ e) in
          rw (reprice-live t' live sets) (
            kept-IsRound (one_price (differs p.sale_price live_price) n) t'
              (λ j. h j ∙ rw live refl) (neither _ _ live)
              (one_price-errors (differs p.sale_price live_price) n))
    ]

  -- Every round goes through, at its product and at nothing else.
  pub reprice_product-IsRound :
      IsRound rounded now before k (c, n) (reprice_product rounded now before k (c, n))
  unfolding reprice_product
  reprice_product-IsRound = elim (Option-cases (before.products k)) [
    | inl e ↦ rw (e, reprice_product) (passed n (rw e refl) (rw e refl) refl)
    | inr (p, e) ↦ elim (Bool-cases (has_promotion k before)) [
      | inl has ↦ elim (Option-cases p.consumer_price) [
        | inl q ↦
            rw (e, has, q, reprice_product)
              (passed (record n { processed = suc n.processed }) (rw (e, q) refl) (rw (e, q) refl)
                refl)
        | inr (cp, q) ↦ rw (e, has, q, reprice_product) (reprice-IsRound p cp e q has)
      ]
      | inr has ↦
          rw (e, has, reprice_product) (passed n (without_promotion p e has) (no_discount has) refl)
    ]
  ]
