-- ===== src/Payment/Refund/Effects.antt =====
-- What a cancellation or a return that goes through leaves behind.
use mathlib.Core.Option
use lif_low_backend.Prelude.{
  sub_zero, ℕ, pos, ◌-ℤ◌, ◌≡◌, refl, false, not, Option, none, some, List, [], ◌∷◌, arith, ◌==◌,
  ==_iff, if◌then◌else◌, ltb, map_same, map_congr, filter, is_some_of, All, Bool-cases,
  Option-cases, inl, inr, ap, sym, ◌∙◌,
}
use lif_low_backend.Schema.{
  User, OrderGroup, OrderSituation, Payment, CouponHistory, Db, Table, update, update-eq-ok, ok,
  >>=-eq-ok, ok-injective,
}
use lif_low_backend.Stock.{raise_stock, restore_stock}
use lif_low_backend.Stock.Laws.{ordered, restore_stock_lem}
use lif_low_backend.Points.{restore_points}
use lif_low_backend.Points.Laws.{refund, sums_of, restore_points_lem}
use lif_low_backend.Membership.{Clock, recalculate}
use lif_low_backend.Membership.Laws.{balances, recalculate-balances}
use lif_low_backend.Payment.Toss.{TossPayment}
use lif_low_backend.Payment.Confirm.{orders_of}
use lif_low_backend.Payment.Refund.{
  find_payment, set_payment, points_of, refunded, with_situation, subtract_purchase, lower_purchase,
  is_issued_by, refund_tx,
}

-- The purchase total of the user who ordered, less the amount of the order group.
abbrev pub unpurchase : ℕ → OrderGroup → User → User
unpurchase k g u = if is_some_of k g.orderer_id then subtract_purchase g.final_amount u else u

subtract_purchase_zero : (u : User) → subtract_purchase 0 u ≡ u
subtract_purchase_zero u = λ i. record u {
  total_purchase_amount = map_same (λ z. z -ℤ pos 0) u.total_purchase_amount sub_zero i;
}

unpurchase_even : (k : ℕ) (g : OrderGroup) (u : User) → g.final_amount ≡ 0 → unpurchase k g u ≡ u
unpurchase_even k g u e = elim (Bool-cases (is_some_of k g.orderer_id)) [
  | inl same ↦ rw (same, e) (subtract_purchase_zero u)
  | inr other ↦ rw other
]

unpurchase_of :
    (k j : ℕ) (g : OrderGroup) (u : User)
    → g.orderer_id ≡ some j
    → unpurchase k g u ≡ (if j == k then subtract_purchase g.final_amount u else u)
unpurchase_of k j g u e = simp e

if_map :
    (k j : ℕ) (f : User → User) (o : Option User)
    → (if k == j then Option.map f o else o) ≡ Option.map (λ u. if j == k then f u else u) o
if_map k j f none = ground arith
if_map k j f (some u) = ground arith

lower_purchase_lem :
    (k : ℕ) (g : OrderGroup) (t : Table User) {t' : Table User}
    → lower_purchase g t ≡ ok t'
    → t' k ≡ Option.map (unpurchase k g) (t k)
unfolding lower_purchase
lower_purchase_lem k g t {t'} h = elim (Option-cases g.orderer_id) [
  | inl e ↦
      let same : t ≡ t' = ok-injective (rw e at h) in
      rw (← same) (sym (map_same (unpurchase k g) (t k) (λ u. rw e)))
  | inr (j, e) ↦ elim (Bool-cases (ltb 0 g.final_amount)) [
    | inl positive ↦
        let written : update j (subtract_purchase g.final_amount) t ≡ ok t' =
          rw positive at (rw e at h) in
        update-eq-ok j (subtract_purchase g.final_amount) t written k ∙ one_user j e
    | inr nothing ↦
        let same : t ≡ t' = ok-injective (rw nothing at (rw e at h)) in
        rw (← same)
          (sym (map_same (unpurchase k g) (t k) (λ u. unpurchase_even k g u (ground arith))))
  ]
]
  where
    one_user :
        (j : ℕ)
        → g.orderer_id ≡ some j
        → (if k == j then Option.map (subtract_purchase g.final_amount) (t k) else t k)
          ≡ Option.map (unpurchase k g) (t k)
    one_user j e =
        if_map k j (subtract_purchase g.final_amount) (t k)
        ∙ sym (map_congr (unpurchase k g) _ (t k) (λ u. unpurchase_of k j g u e))

-- The steps of a transaction that went through.
pub record Refund (clock : Clock) (s : OrderSituation) (g : OrderGroup) (toss : TossPayment)
    (p : Payment) (db : Db) (p' : Payment) (db' : Db) : Type 0 where
  pub saved : p' ≡ refunded toss p
  pub payments : db'.payments ≡ set_payment p.id (refunded toss p) db.payments
  pub histories : db'.coupon_histories ≡ filter (λ h. not (is_issued_by p.id h)) db.coupon_histories
  pub products :
      restore_stock (orders_of p.order_group_number db.orders) db.products ≡ ok db'.products
  pub groups : update p.order_group_number (with_situation s) db.order_groups ≡ ok db'.order_groups
  pub restored : Table User
  pub lowered : Table User
  pub points_back : restore_points (points_of p.order_group_number db.points) db.users ≡ ok restored
  pub purchase : lower_purchase g restored ≡ ok lowered
  pub users :
      db'.users ≡ (recalculate clock p.user_id db.memberships (lowered, db.user_memberships)).0

pub refund_tx-Refund :
    (clock : Clock) (s : OrderSituation) (g : OrderGroup) (toss : TossPayment) (p : Payment)
    (db : Db) {p' : Payment} {db' : Db}
    → refund_tx clock s g toss p db ≡ ok (p', db')
    → Refund clock s g toss p db p' db'
unfolding refund_tx
refund_tx-Refund clock s g toss p db h =
    let (products, e1, h1) =
      >>=-eq-ok (restore_stock (orders_of p.order_group_number db.orders) db.products) _ h in
    let (groups, e2, h2) =
      >>=-eq-ok (update p.order_group_number (with_situation s) db.order_groups) _ h1 in
    let (restored, e3, h3) =
      >>=-eq-ok (restore_points (points_of p.order_group_number db.points) db.users) _ h2 in
    let (lowered, e4, h4) = >>=-eq-ok (lower_purchase g restored) _ h3 in
    let q = ok-injective h4 in
    record {
      saved = sym (ap (λ r. r.0) q);
      payments = sym (ap (λ r. r.1.payments) q);
      histories = sym (ap (λ r. r.1.coupon_histories) q);
      products = e1 ∙ ap (λ r. ok r.1.products) q;
      groups = e2 ∙ ap (λ r. ok r.1.order_groups) q;
      restored = restored;
      lowered = lowered;
      points_back = e3;
      purchase = e4;
      users = sym (ap (λ r. r.1.users) q);
    }

pub find-set_payment :
    (id : ℕ) (p p' : Payment) (ps : List Payment)
    → find_payment id ps ≡ some p
    → p'.id ≡ id
    → find_payment id (set_payment id p' ps) ≡ some p'
unfolding set_payment
find-set_payment id p p' [] f e = cc
find-set_payment id p p' (x ∷ ps) f e = ground (arith, find-set_payment id p p' ps, ==_iff p'.id id)

pub none_left :
    (id : ℕ) (hs : List CouponHistory)
    → All (λ h. is_issued_by id h ≡ false) (filter (λ h. not (is_issued_by id h)) hs)
none_left id [] = tt
none_left id (h ∷ hs) = elim (Bool-cases (is_issued_by id h)) [
  | inl e ↦ rw e (none_left id hs)
  | inr e ↦ rw e (e, none_left id hs)
]

module _ (clock : Clock) (s : OrderSituation) (g : OrderGroup) (toss : TossPayment) (p : Payment)
    (db : Db) where
  -- Who gets what back, for every user at once: the balances after the refund are those before,
  -- with the point records of the order group reversed and the amount of the group taken off the
  -- purchase total of the user who ordered.
  pub Refund-balances :
      {p' : Payment} {db' : Db}
      → Refund clock s g toss p db p' db'
      → (k : ℕ)
      → Option.map balances (db'.users k)
        ≡ Option.map balances (
            Option.map (unpurchase k g) (
              Option.map
                (refund (sums_of k (points_of p.order_group_number db.points)))
                (db.users k)))
  Refund-balances r k =
      ap (λ t. Option.map balances (t k)) r.users
      ∙ recalculate-balances clock p.user_id k db.memberships r.lowered db.user_memberships
      ∙ ap (Option.map balances) (lower_purchase_lem k g r.restored r.purchase)
      ∙ ap (λ o. Option.map balances (Option.map (unpurchase k g) o))
          (restore_points_lem k (points_of p.order_group_number db.points) db.users r.points_back)

  pub Refund-products :
      {p' : Payment} {db' : Db}
      → Refund clock s g toss p db p' db'
      → (k : ℕ)
      → db'.products k
        ≡ Option.map
            (raise_stock (ordered k (orders_of p.order_group_number db.orders)))
            (db.products k)
  Refund-products r k =
      restore_stock_lem k (orders_of p.order_group_number db.orders) db.products r.products

  pub Refund-groups :
      {p' : Payment} {db' : Db}
      → Refund clock s g toss p db p' db'
      → (j : ℕ)
      → db'.order_groups j ≡ (
          if j == p.order_group_number
          then Option.map (with_situation s) (db.order_groups j)
          else db.order_groups j)
  Refund-groups r j =
      update-eq-ok p.order_group_number (with_situation s) db.order_groups r.groups j

  -- The payment is found again as it was returned.
  pub Refund-payment :
      {p' : Payment} {db' : Db}
      → Refund clock s g toss p db p' db'
      → find_payment p.id db.payments ≡ some p
      → find_payment p.id db'.payments ≡ some p'
  Refund-payment r f =
      rw (r.payments, r.saved) (find-set_payment p.id p (refunded toss p) db.payments f refl)
