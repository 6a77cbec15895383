-- ===== src/Payment/Confirm/Transaction.antt =====
-- What the transaction of `confirmPayment` does when it goes through, for every user, product,
-- order group and payment at once.
use lif_low_backend.Prelude.{ℕ, String, ◌≡◌, Bool, false, Option, some, ◌∷◌, ap, sym, ◌∙◌}
use lif_low_backend.Schema.{
  User, OrderGroup, Payment, Db, put, ok, >>=-eq-ok, or_throw, or_throw-eq-ok, throw_if,
  throw_if-eq-ok, ok-injective,
}
use lif_low_backend.Stock.{take_stock}
use lif_low_backend.Points.{spend_points}
use lif_low_backend.Coupons.{use_coupons}
use lif_low_backend.Payment.Toss.{TossPayment, payment_exists, payment_of}
use lif_low_backend.Payment.Confirm.{
  ConfirmRequest, is_empty, orders_of, add_purchase, complete_group, confirm_tx,
}

-- The steps of a transaction that went through.
pub record Confirm (req : ConfirmRequest) (user_id : ℕ) (toss : TossPayment) (now : ℕ) (db : Db)
    (p : Payment) (level : Option String) (db' : Db) : Type 0 where
  pub g : OrderGroup
  pub u : User
  pub group_found : db.order_groups req.order_group_number ≡ some g
  pub user_found : db.users user_id ≡ some u
  pub has_orders : is_empty (orders_of req.order_group_number db.orders) ≡ false
  pub unpaid : payment_exists toss.order_id toss.payment_key db.payments ≡ false
  pub level_is : level ≡ u.membership_level
  pub payment_is : p ≡ payment_of db'.last_id user_id toss
  pub payments : db'.payments ≡ p ∷ db.payments
  pub users :
      db'.users
      ≡ put user_id
          (add_purchase g.final_amount
            (spend_points user_id req.order_group_number g.points_used u db.points).0)
          db.users
  pub points :
      db'.points ≡ (spend_points user_id req.order_group_number g.points_used u db.points).1
  pub groups : db'.order_groups ≡ put req.order_group_number (complete_group p.id g) db.order_groups
  pub products : db'.products ≡ take_stock (orders_of req.order_group_number db.orders) db.products
  pub orders : db'.orders ≡ db.orders
  pub histories :
      db'.coupon_histories
      ≡ (use_coupons req.coupons db.coupons user_id now
          (orders_of req.order_group_number db.orders)
          (db.coupon_histories, db.last_id)).0

pub confirm_tx-Confirm :
    (req : ConfirmRequest) (user_id : ℕ) (direct : Bool) (toss : TossPayment) (now : ℕ) (db : Db)
    {p : Payment} {level : Option String} {db' : Db}
    → confirm_tx req user_id direct toss now db ≡ ok (p, level, db')
    → Confirm req user_id toss now db p level db'
unfolding confirm_tx
confirm_tx-Confirm req user_id direct toss now db h =
    let group = req.order_group_number in
    let (g, eg, h1) = >>=-eq-ok (or_throw (db.order_groups group) _) _ h in
    let (u, eu, h2) = >>=-eq-ok (or_throw (db.users user_id) _) _ h1 in
    let (_, en, h3) = >>=-eq-ok (throw_if (is_empty (orders_of group db.orders)) _) _ h2 in
    let (_, ep, h4) =
      >>=-eq-ok (throw_if (payment_exists toss.order_id toss.payment_key db.payments) _) _ h3 in
    let (_, _, h5) = >>=-eq-ok (or_throw (db.order_groups toss.order_id) _) _ h4 in
    let q = ok-injective h5 in
    record {
      g = g;
      u = u;
      group_found = or_throw-eq-ok (db.order_groups group) _ eg;
      user_found = or_throw-eq-ok (db.users user_id) _ eu;
      has_orders = throw_if-eq-ok (is_empty (orders_of group db.orders)) _ en;
      unpaid = throw_if-eq-ok (payment_exists toss.order_id toss.payment_key db.payments) _ ep;
      level_is = sym (ap (λ r. r.1) q);
      payment_is = sym (ap (λ r. r.0) q) ∙ ap (λ r. payment_of r.2.last_id user_id toss) q;
      payments = sym (ap (λ r. r.2.payments) q) ∙ ap (λ r. r.0 ∷ db.payments) q;
      users = sym (ap (λ r. r.2.users) q);
      points = sym (ap (λ r. r.2.points) q);
      groups =
          sym (ap (λ r. r.2.order_groups) q)
          ∙ ap (λ r. put group (complete_group r.0.id g) db.order_groups) q;
      products = sym (ap (λ r. r.2.products) q);
      orders = sym (ap (λ r. r.2.orders) q);
      histories = sym (ap (λ r. r.2.coupon_histories) q);
    }
