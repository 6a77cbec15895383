-- ===== src/Payment/Confirm/Effects.antt =====
-- The effects of the transaction of `confirmPayment`, written out for every user, product, order
-- group and payment at once.
use mathlib.Core.Option
use lif_low_backend.Prelude.{
  ℕ, String, pos, ◌+ℤ◌, ◌-ℤ◌, ◌≡◌, refl, false, Option, some, ◌∷◌, arith, ◌==◌, ==_iff,
  if◌then◌else◌, ap, sym, ◌∙◌, Bool-cases, inl, inr, map_same,
}
use lif_low_backend.Schema.{User, OrderGroup, Payment, Db, Table, put}
use lif_low_backend.Stock.{lower_origin}
use lif_low_backend.Stock.Laws.{ordered, take_stock_lem}
use lif_low_backend.Points.Spent.{spend_points-spend}
use lif_low_backend.Payment.Toss.{TossPayment, payment_exists, payment_of}
use lif_low_backend.Payment.Confirm.{ConfirmRequest, orders_of, add_purchase, complete_group}
use lif_low_backend.Payment.Confirm.Transaction.{Confirm}

-- The user who pays: the points used leave the balance, and the amount is added to the purchases.
abbrev pub charge : OrderGroup → User → User
charge g u = record u {
  available_points = Option.map (λ z. z -ℤ pos g.points_used) u.available_points;
  total_used_points = Option.map (λ z. z +ℤ pos g.points_used) u.total_used_points;
  total_purchase_amount = Option.map (λ z. z +ℤ pos g.final_amount) u.total_purchase_amount;
}

-- All that a confirmed payment leaves behind, in terms of the database before it.
pub record IsConfirmed (req : ConfirmRequest) (user_id : ℕ) (toss : TossPayment) (g : OrderGroup)
    (db : Db) (p : Payment) (db' : Db) : Type 0 where
  pub group_found : db.order_groups req.order_group_number ≡ some g
  pub unpaid : payment_exists toss.order_id toss.payment_key db.payments ≡ false
  pub payment_is : p ≡ payment_of db'.last_id user_id toss
  pub payments_are : db'.payments ≡ p ∷ db.payments
  pub users_are :
      (k : ℕ) → db'.users k ≡ Option.map (λ u. if user_id == k then charge g u else u) (db.users k)
  pub groups_are :
      (j : ℕ)
      → db'.order_groups j
        ≡ (if j == req.order_group_number then some (complete_group p.id g) else db.order_groups j)
  pub products_are :
      (k : ℕ)
      → db'.products k
        ≡ Option.map
            (lower_origin (ordered k (orders_of req.order_group_number db.orders)))
            (db.products k)
  pub orders_are : db'.orders ≡ db.orders

charged :
    (k user_id : ℕ) (g : OrderGroup) (u : User) (t : Table User)
    → t user_id ≡ some u
    → put user_id (charge g u) t k ≡ Option.map (λ v. if user_id == k then charge g v else v) (t k)
charged k user_id g u t e = elim (Bool-cases (k == user_id)) [
  | inl same ↦
      let q : k ≡ user_id = (==_iff k user_id).0 same in
      rw q (rw (e, (==_iff user_id user_id).1 refl) refl)
  | inr other ↦ rw other (sym (map_same _ (t k) (λ v. rw (flipped k user_id other) refl)))
]
  where
    flipped : (a b : ℕ) → (a == b) ≡ false → (b == a) ≡ false
    flipped a b h = ground arith

pub Confirm-IsConfirmed :
    (req : ConfirmRequest) (user_id : ℕ) (toss : TossPayment) (now : ℕ) (db : Db) {p : Payment}
    {level : Option String} {db' : Db} (c : Confirm req user_id toss now db p level db')
    → IsConfirmed req user_id toss c.g db p db'
Confirm-IsConfirmed req user_id toss now db c = record {
  group_found = c.group_found;
  unpaid = c.unpaid;
  payment_is = c.payment_is;
  payments_are = c.payments;
  users_are = λ k.
      ap (λ t. t k) c.users
      ∙ ap (λ v. put user_id (add_purchase c.g.final_amount v) db.users k)
          (spend_points-spend user_id req.order_group_number c.g.points_used c.u db.points)
      ∙ charged k user_id c.g c.u db.users c.user_found;
  groups_are = λ j. ap (λ t. t j) c.groups;
  products_are = λ k.
      ap (λ t. t k) c.products
      ∙ take_stock_lem k (orders_of req.order_group_number db.orders) db.products;
  orders_are = c.orders;
}
