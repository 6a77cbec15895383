-- ===== src/Schema/Results.antt =====
-- What a service call returns: a value, or an exception with the reason that it was thrown for.
use mathlib.Core.Option
use lif_low_backend.Prelude.{
  ◌≡◌, ◌⊎◌, refl, ap, sym, ◌∙◌, inl, inr, Bool, true, false, Option, none, some, ◌==◌,
  if◌then◌else◌, ℕ, Option-cases, Bool-cases, ==_iff,
}
use lif_low_backend.Schema.Rows.{Table, put}

-- Why an exception was thrown: the message of the source, without its parameters.
pub data Reason : Type 0 where
  token_outdated_or_invalid user_id_required minimum_payment_amount : Reason
  order_group_not_found user_not_found no_orders_found payment_not_found : Reason
  situation_not_allowed only_successful_payments no_balance nothing_to_refund : Reason
  final_state courier_and_invoice_required points_zero insufficient_points : Reason
  cart_item_required no_active_cart_items cart_items_unavailable not_enough_quantity : Reason
  discount_exceeds_amount cart_item_not_found cart_item_checked_out : Reason
  quantity_too_small default_message not_unique_field invalid_data : Reason
  database_connection shipping_address_required cart_not_found address_not_found : Reason
  address_of_another_user no_unique_number product_not_found invalid_sale_price : Reason
  failed_to_initiate_payment failed_to_update_order_group orderer_not_found : Reason
  coupon_not_found history_not_found coupon_inactive coupon_already_issued : Reason
  coupon_already_used coupon_not_issued coupon_expired insufficient_purchase_amount : Reason
  invalid_coupon_type cart_item_exists invalid_cart_item product_not_available : Reason
  no_sale_price empty_items cart_checked_out cart_has_checked_out_items cart_exists : Reason
  invalid_cart cart_empty no_active_items coupon_code_exists discount_rate_required : Reason
  discount_amount_required discount_amount_not_allowed discount_rate_not_allowed : Reason
  start_not_before_end consumer_price_not_set discount_not_found discount_exists : Reason
  product_id_fixed empty_ids no_special_offer membership_not_found : Reason
  membership_exists user_membership_not_found user_membership_exists : Reason
  end_not_after_start order_not_found failed_to_create_order : Reason
  failed_to_create_order_group failed_to_cancel_order_group : Reason

-- The HTTP exceptions, the errors of the database by their code, and what Toss answers.
pub data Error : Type 0 where
  not_found bad_request conflict validation internal : Reason → Error
  p2002 p2003 p2025 p1001 other_database_error : Error
  toss_error : ℕ → Error

-- The outcome of a call: an exception, or the value that it returned.
pub data Result {ℓ} (V : Type ℓ) : Type ℓ where
  err : Error → Result V
  ok : V → Result V

-- `if (b) throw e`
abbrev pub throw_if : Bool → Error → Result (Unit {0})
throw_if true e = err e
throw_if false e = ok tt

infixl 5 ◌>>=◌ ◌>>◌
-- An exception skips what comes after it.
abbrev pub ◌>>=◌ {ℓ κ} : {V : Type ℓ} {W : Type κ} → Result V → (V → Result W) → Result W
err thrown >>= _ = err thrown
ok v >>= next = next v

-- `if (!o) throw e`
abbrev pub or_throw {ℓ} : {V : Type ℓ} → Option V → Error → Result V
or_throw none e = err e
or_throw (some v) e = ok v

abbrev pub ◌>>◌ {ℓ} : {W : Type ℓ} → Result (Unit {0}) → Result W → Result W
checked >> after = checked >>= λ _. after

-- `update({ where: k, data })`: the row is changed, and a missing row is the error P2025.
abbrev pub update {ℓ} : {V : Type ℓ} → ℕ → (V → V) → Table V → Result (Table V)
update k f t = or_throw (t k) p2025 >>= λ v. ok (put k (f v) t)

pub Result-cases {ℓ} :
    {A : Type ℓ} (r : Result A) → ((a : A) × (r ≡ ok a)) ⊎ ((e : Error) × (r ≡ err e))
Result-cases (ok a) = inl (a, refl)
Result-cases (err e) = inr (e, refl)

-- A chain that returns has a first step that returns.
pub >>=-eq-ok {ℓ κ} :
    {V : Type ℓ} {W : Type κ} (first : Result V) (next : V → Result W) {w : W}
    → (first >>= next) ≡ ok w
    → (v : V) × (first ≡ ok v) × (next v ≡ ok w)
>>=-eq-ok (err thrown) next h = cc
>>=-eq-ok (ok v) next h = (v, refl, h)

pub or_throw-eq-ok {ℓ} :
    {A : Type ℓ} (o : Option A) (e : Error) {a : A} → or_throw o e ≡ ok a → o ≡ some a
or_throw-eq-ok none e h = cc
or_throw-eq-ok (some a) e h = cc

pub throw_if-eq-ok : (b : Bool) (e : Error) → throw_if b e ≡ ok tt → b ≡ false
throw_if-eq-ok true e h = cc
throw_if-eq-ok false e h = refl

pub ok-injective {ℓ} : {A : Type ℓ} {a b : A} → ok a ≡ ok b → a ≡ b
ok-injective h = cc

pub ok-ne-err {ℓ} : {V : Type ℓ} {v : V} {e : Error} → ok v ≡ err e → ⊥
ok-ne-err h = cc

-- After an update the table holds the changed row under its key, and what it held elsewhere.
pub update-eq-ok {ℓ} :
    {V : Type ℓ} (k : ℕ) (f : V → V) (t : Table V) {t' : Table V}
    → update k f t ≡ ok t'
    → (j : ℕ) → t' j ≡ (if j == k then Option.map f (t j) else t j)
update-eq-ok {V} k f t {t'} h j = elim (Option-cases (t k)) [
  | inl e ↦ absurd (none_case e)
  | inr (v, e) ↦
      let written : put k (f v) t ≡ t' = ok-injective (rw e at h) in
      ap (λ u. u j) (sym written) ∙ put_lem v e
]
  where
    none_case : t k ≡ none → ⊥
    none_case e = cc (rw e at h)

    put_lem :
        (v : V) → t k ≡ some v → put k (f v) t j ≡ (if j == k then Option.map f (t j) else t j)
    put_lem v e = elim (Bool-cases (j == k)) [
      | inl same ↦ rw same (let q : j ≡ k = (==_iff j k).0 same in rw q (rw e))
      | inr other ↦ rw other
    ]
