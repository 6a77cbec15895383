-- ===== src/Orders/Shipping.antt =====
-- What updates of order groups keep: a parcel has a courier and an invoice number, and a group that
-- was cancelled or returned stays as it is.
use lif_low_backend.Prelude.{
  ℕ, ◌≡◌, refl, true, false, ◌&&◌, ◌||◌, Option, some, ◌==◌, if◌then◌else◌, ap, sym, subst, ◌∙◌,
  Bool-cases, Option-cases, get_or, none, inl, inr,
}
use lif_low_backend.Schema.{
  Text, put, order_being_shipped, OrderGroup, OrderSituation, Db, Result, ok, err, >>=-eq-ok,
  or_throw, or_throw-eq-ok, throw_if, throw_if-eq-ok, ok-injective, internal, Reason, bad_request,
  final_state, failed_to_update_order_group,
}
use lif_low_backend.Orders.{
  UpdateOrderGroup, is_blank, is_final, needs_parcel, updated, or_existing, next_situation,
  check_orderer, try_update, normalise_group_error, caught, update_order_group,
}

-- A group whose parcel is on its way, or has arrived, names a courier and an invoice number.
abbrev pub HasParcel : OrderGroup → Type 0
HasParcel g =
    needs_parcel g.situation ≡ true
    → (is_blank g.courier_company ≡ false) × (is_blank g.invoice_number ≡ false)

caught-eq-ok :
    {A : Type 0} (message : Reason) (r : Result A) {a : A} → caught message r ≡ ok a → r ≡ ok a
caught-eq-ok message (ok a) h = h
caught-eq-ok message (err e) h = cc

-- A column that is new if the request gives it, and else stays.
abbrev pub Takes {ℓ} : {A : Type ℓ} → Option A → A → A → Type ℓ
Takes none old new = new ≡ old
Takes (some a) old new = new ≡ a

-- The same for a column that may be null.
abbrev pub TakesSome {ℓ} : {A : Type ℓ} → Option A → Option A → Option A → Type ℓ
TakesSome none old new = new ≡ old
TakesSome (some a) old new = new ≡ some a

-- The situation is that of the request. Without one it is that of a parcel on its way, if the
-- request gives both the courier and the invoice number, and else it stays.
abbrev pub IsSituation : UpdateOrderGroup → OrderSituation → OrderSituation → Type 0
IsSituation dto old new =
    ((s : OrderSituation) → dto.situation ≡ some s → new ≡ s)
    × ((c i : Text)
        → dto.situation ≡ none
        → dto.courier_company ≡ some c
        → dto.invoice_number ≡ some i
        → new ≡ order_being_shipped)
    × (dto.situation ≡ none → dto.courier_company ≡ none → new ≡ old)
    × (dto.situation ≡ none → dto.invoice_number ≡ none → new ≡ old)

-- What the request makes of a group, column by column.
pub record HasTaken (dto : UpdateOrderGroup) (g g' : OrderGroup) : Type 0 where
  pub original_amount : Takes dto.original_amount g.original_amount g'.original_amount
  pub discount_amount : Takes dto.discount_amount g.discount_amount g'.discount_amount
  pub final_amount : Takes dto.final_amount g.final_amount g'.final_amount
  pub points_used : Takes dto.points_used g.points_used g'.points_used
  pub cart_item_ids : Takes dto.cart_item_ids g.cart_item_ids g'.cart_item_ids
  pub delivery_fee : Takes dto.delivery_fee g.delivery_fee g'.delivery_fee
  pub orderer_id : TakesSome dto.orderer_id g.orderer_id g'.orderer_id
  pub courier_company : TakesSome dto.courier_company g.courier_company g'.courier_company
  pub invoice_number : TakesSome dto.invoice_number g.invoice_number g'.invoice_number
  pub situation : IsSituation dto g.situation g'.situation
  pub payment_id : g'.payment_id ≡ g.payment_id

-- An update that goes through was of a group that is neither cancelled nor returned.
pub record IsUpdated (dto : UpdateOrderGroup) (group : ℕ) (db db' : Db) : Type 0 where
  pub g : OrderGroup
  pub g' : OrderGroup
  pub found : db.order_groups group ≡ some g
  pub open_before : is_final g.situation ≡ false
  pub taken : HasTaken dto g g'
  pub parcel : HasParcel g'
  pub others : db' ≡ record db { order_groups = put group g' db.order_groups }

takes {ℓ} : {A : Type ℓ} (o : Option A) (old : A) → Takes o old (get_or o old)
takes none old = refl
takes (some a) old = refl

takes_some {ℓ} : {A : Type ℓ} (o old : Option A) → TakesSome o old (or_existing o old)
takes_some none old = refl
takes_some (some a) old = refl

next_situation-IsSituation :
    (dto : UpdateOrderGroup) (old : OrderSituation) → IsSituation dto old (next_situation dto old)
unfolding next_situation
next_situation-IsSituation dto old = (
  λ s e. rw e refl,
  λ c i e ec ei. rw (e, ec, ei) refl,
  λ e ec.
      rw (e, ec)
        (elim (Option-cases dto.invoice_number) [ inl n ↦ rw n refl | inr (i, n) ↦ rw n refl ]),
  λ e ei. rw (e, ei) refl,
)

updated-HasTaken : (dto : UpdateOrderGroup) (g : OrderGroup) → HasTaken dto g (updated dto g)
unfolding updated
updated-HasTaken dto g = record {
  original_amount = takes dto.original_amount g.original_amount;
  discount_amount = takes dto.discount_amount g.discount_amount;
  final_amount = takes dto.final_amount g.final_amount;
  points_used = takes dto.points_used g.points_used;
  cart_item_ids = takes dto.cart_item_ids g.cart_item_ids;
  delivery_fee = takes dto.delivery_fee g.delivery_fee;
  orderer_id = takes_some dto.orderer_id g.orderer_id;
  courier_company = takes_some dto.courier_company g.courier_company;
  invoice_number = takes_some dto.invoice_number g.invoice_number;
  situation = next_situation-IsSituation dto g.situation;
  payment_id = refl;
}

parcel_of :
    (g : OrderGroup)
    → (needs_parcel g.situation && (is_blank g.courier_company || is_blank g.invoice_number))
      ≡ false
    → HasParcel g
parcel_of g h n = elim (Bool-cases (is_blank g.courier_company)) [
  | inl b ↦ absurd (clash (rw (n, b) at h))
  | inr b ↦ elim (Bool-cases (is_blank g.invoice_number)) [
    | inl c ↦ absurd (clash (rw (n, b, c) at h))
    | inr c ↦ (b, c)
  ]
]
  where
    clash : true ≡ false → ⊥
    clash q = cc

-- An update goes through only for a group that is neither cancelled nor returned. Each column of
-- that group then has the value that the request gives, or stays if it gives none; the situation
-- is that of a parcel on its way if the request gives no situation but both the courier and the
-- invoice number. The group has a courier and an invoice number if its parcel is then on its way or
-- has arrived, and nothing else of the database changes.
pub update_order_group-IsUpdated :
    (dto : UpdateOrderGroup) (group : ℕ) (db : Db) {notice : Option (ℕ × OrderSituation)} {db' : Db}
    → update_order_group dto group db ≡ ok (notice, db')
    → IsUpdated dto group db db'
unfolding update_order_group try_update
update_order_group-IsUpdated dto group db h =
    let h0 = caught-eq-ok failed_to_update_order_group (try_update dto group db) h in
    let (g, eg, h1) = >>=-eq-ok (or_throw (db.order_groups group) _) _ h0 in
    let (_, ef, h2) = >>=-eq-ok (throw_if (is_final g.situation) _) _ h1 in
    let (_, _, h3) = >>=-eq-ok (check_orderer db.users dto.orderer_id) _ h2 in
    let g' = updated dto g in
    let (_, ep, done) =
      >>=-eq-ok
        (throw_if
          (needs_parcel g'.situation && (is_blank g'.courier_company || is_blank g'.invoice_number))
          _)
        _ h3 in
    let q = ok-injective done in
    record {
      g = g;
      g' = g';
      found = or_throw-eq-ok (db.order_groups group) _ eg;
      open_before = throw_if-eq-ok (is_final g.situation) _ ef;
      taken = updated-HasTaken dto g;
      parcel = parcel_of g' (throw_if-eq-ok _ _ ep);
      others = sym (ap (λ r. r.1) q);
    }

-- Every group has its parcel's courier and invoice number after an update, if every one had them
-- before.
pub update_order_group-HasParcel :
    (dto : UpdateOrderGroup) (group : ℕ) (db : Db) {notice : Option (ℕ × OrderSituation)} {db' : Db}
    → ((j : ℕ) (g : OrderGroup) → db.order_groups j ≡ some g → HasParcel g)
    → update_order_group dto group db ≡ ok (notice, db')
    → (j : ℕ) (g : OrderGroup) → db'.order_groups j ≡ some g
    → HasParcel g
update_order_group-HasParcel dto group db {db' = db'} before h j g e =
    let u = update_order_group-IsUpdated dto group db h in
    let row : db'.order_groups j ≡ (if j == group then some u.g' else db.order_groups j) =
      ap (λ (d : Db). d.order_groups j) u.others in
    elim (Bool-cases (j == group)) [
      | inl same ↦
          let now : u.g' ≡ g = some-injective (sym (rw same at row) ∙ e) in
          subst HasParcel now u.parcel
      | inr other ↦ before j g (sym (rw other at row) ∙ e)
    ]
  where
    some-injective : {a b : OrderGroup} → some a ≡ some b → a ≡ b
    some-injective q = cc

-- An update of a group that was cancelled or returned is refused, whatever the request says; the
-- "bad request" of the check reaches the caller as an internal error.
pub update_order_group-final :
    (dto : UpdateOrderGroup) (group : ℕ) (db : Db) {g : OrderGroup}
    → db.order_groups group ≡ some g
    → is_final g.situation ≡ true
    → (try_update dto group db ≡ err (bad_request final_state))
      × (update_order_group dto group db ≡ err (internal failed_to_update_order_group))
unfolding update_order_group try_update normalise_group_error
update_order_group-final dto group db e f = (rw (e, f) refl, rw (e, f) refl)
