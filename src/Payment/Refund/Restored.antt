-- ===== src/Payment/Refund/Restored.antt =====
-- A confirmed payment and its cancellation, one after the other.
use mathlib.Core.Option
use lif_low_backend.Prelude.{
  some-injective, ℕ, ℤ, pos, ◌-ℤ◌, String, ◌≡◌, refl, Bool, Option, some, [], ==_iff, sym, ap, ◌∙◌,
  subst,
}
use lif_low_backend.Schema.{User, OrderGroup, Payment, order_cancelled, Db, ok}
use lif_low_backend.Stock.{raise_stock}
use lif_low_backend.Stock.Laws.{ordered}
use lif_low_backend.Stock.RoundTrip.{raise_stock_quantity, raise-lower}
use lif_low_backend.Points.Laws.{sums_of, plus, refund}
use lif_low_backend.Points.Spent.{sums-spend_points}
use lif_low_backend.Membership.{Clock}
use lif_low_backend.Membership.Laws.{balances}
use lif_low_backend.Payment.Toss.{TossPayment}
use lif_low_backend.Payment.Confirm.{
  ConfirmRequest, orders_of, complete_group, confirm_tx, issue_reward,
}
use lif_low_backend.Payment.Confirm.Transaction.{Confirm, confirm_tx-Confirm}
use lif_low_backend.Payment.Confirm.Effects.{charge, Confirm-IsConfirmed}
use lif_low_backend.Payment.Confirm.Earned.{IsRewarded, issue_reward-IsRewarded}
use lif_low_backend.Payment.Refund.{find_payment, points_of, TossCancel, cancel}
use lif_low_backend.Payment.Refund.Effects.{unpurchase}
use lif_low_backend.Payment.Refund.Closed.{IsRefunded, cancel-IsRefunded}
use lif_low_backend.Payment.Refund.RoundTrip.{
  recorded, earned, spent, paid, rewarded, every_user, sums_even,
}

module _ (req : ConfirmRequest) (user_id : ℕ) (toss : TossPayment) (now : ℕ) (db : Db) (p : Payment)
    (level : Option String) (db1 db2 : Db) (n : ℕ) (c : Confirm req user_id toss now db p level db1)
    (r : IsRewarded user_id req.order_group_number n db1 db2) where
  -- The point records of the order group after the payment and its reward.
  records :
      points_of req.order_group_number db.points ≡ []
      → (k : ℕ) → sums_of k (points_of req.order_group_number db2.points) ≡ recorded user_id n c.g k
  records fresh k =
      r.sums_are k
      ∙ ap (plus (earned user_id n c.g k)) (
          ap (λ ps. sums_of k (points_of req.order_group_number ps)) c.points
          ∙ sums-spend_points k user_id req.order_group_number c.g.points_used c.u db.points
          ∙ ap (λ ps. plus (spent user_id n c.g k) (sums_of k ps)) fresh)
      ∙ sums_even user_id n c.g k

  -- The payment that is found under its identifier is the one of this confirmation.
  found_again : {q : Payment} → find_payment p.id db2.payments ≡ some q → p ≡ q
  found_again {q} f =
      some-injective (rw (c.payments, (==_iff p.id p.id).1 refl) at (rw r.payments_are at f))

  group_again :
      {g' : OrderGroup}
      → db2.order_groups req.order_group_number ≡ some g'
      → complete_group p.id c.g ≡ g'
  group_again f = some-injective (
      rw (c.groups, (==_iff req.order_group_number req.order_group_number).1 refl) at
        (rw r.groups_are at f))

  users_again :
      (k : ℕ)
      → db2.users k
        ≡ Option.map (rewarded user_id n c.g k) (Option.map (paid user_id n c.g k) (db.users k))
  users_again k =
      r.users_are k
      ∙ ap (Option.map (rewarded user_id n c.g k))
          ((Confirm-IsConfirmed req user_id toss now db c).users_are k)

  restored :
      (g2 : OrderGroup) (toss2 : TossPayment) {p' : Payment} {db' : Db}
      → toss.order_id ≡ req.order_group_number
      → points_of req.order_group_number db.points ≡ []
      → c.g.orderer_id ≡ some user_id
      → db2.order_groups p.order_group_number ≡ some g2
      → IsRefunded order_cancelled p g2 toss2 db2 p' db'
      → (k : ℕ)
      → (Option.map balances (db'.users k) ≡ Option.map balances (db.users k))
        × (db'.products k
            ≡ Option.map
                (raise_stock_quantity (ordered k (orders_of req.order_group_number db.orders)))
                (db.products k))
  restored g2 toss2 same fresh owner f done k =
      let group : p.order_group_number ≡ req.order_group_number =
        ap (λ q. q.order_group_number) c.payment_is ∙ same in
      let g2_is = group_again (subst (λ j. db2.order_groups j ≡ some g2) group f) in
      let sums : sums_of k (points_of p.order_group_number db2.points) ≡ recorded user_id n c.g k =
        ap (λ j. sums_of k (points_of j db2.points)) group ∙ records fresh k in
      (
        done.balances_are k
            ∙ ap
                (λ s.
                  Option.map balances
                    (Option.map (unpurchase k g2) (Option.map (refund s) (db2.users k))))
                sums
            ∙ ap
                (λ o.
                  Option.map balances (
                    Option.map (unpurchase k g2)
                      (Option.map (refund (recorded user_id n c.g k)) o)))
                (users_again k)
            ∙ every_user user_id n c.g k g2 (db.users k)
                (ap (λ h. h.orderer_id) (sym g2_is) ∙ owner) (ap (λ h. h.final_amount) (sym g2_is)),
        done.products_are k
            ∙ ap
                (λ j.
                  Option.map (raise_stock (ordered k (orders_of j db2.orders))) (db2.products k))
                group
            ∙ ap
                (λ os.
                  Option.map (raise_stock (ordered k (orders_of req.order_group_number os)))
                    (db2.products k))
                (r.orders_are ∙ c.orders)
            ∙ ap
                (λ t.
                  Option.map (raise_stock (ordered k (orders_of req.order_group_number db.orders)))
                    (t k))
                r.products_are
            ∙ ap (Option.map (raise_stock (ordered k (orders_of req.order_group_number db.orders))))
                ((Confirm-IsConfirmed req user_id toss now db c).products_are k)
            ∙ raise-lower (ordered k (orders_of req.order_group_number db.orders)) (db.products k),
      )

-- A payment that was confirmed and rewarded and is then cancelled leaves every user with the three
-- balances from before: points, used points and purchases. It leaves the stock figure `origin` of
-- every product as before, and `stockQuantity` higher by all that was ordered. The conditions: the
-- order group had no point records, belongs to the user who paid, that user had a balance of
-- points, and Toss answered for that order. Whatever Toss answers to the cancellation.
pub cancel-restores :
    (req : ConfirmRequest) (user_id : ℕ) (direct : Bool) (toss : TossPayment) (now : ℕ) (db : Db)
    {p : Payment} {level : Option String} {db1 : Db} {g : OrderGroup} {u : User} {z : ℤ}
    → confirm_tx req user_id direct toss now db ≡ ok (p, level, db1)
    → toss.order_id ≡ req.order_group_number
    → points_of req.order_group_number db.points ≡ []
    → db.order_groups req.order_group_number ≡ some g
    → g.orderer_id ≡ some user_id
    → db.users user_id ≡ some u
    → u.available_points ≡ some z
    → (toss_cancel : TossCancel) (clock : Clock) (amount : Option ℕ) {p' : Payment} {db' : Db}
    → cancel toss_cancel clock p.id amount (issue_reward user_id p req.order_group_number level db1)
      ≡ ok (p', db')
    → (k : ℕ)
    → (Option.map balances (db'.users k) ≡ Option.map balances (db.users k))
      × (db'.products k
          ≡ Option.map
              (raise_stock_quantity (ordered k (orders_of req.order_group_number db.orders)))
              (db.products k))
cancel-restores req user_id direct toss now db {p} {level} {db1} {g} {u} {z} confirmed same fresh eg
      owner eu points toss_cancel clock amount {p'} {db'} cancelled k =
    let c = confirm_tx-Confirm req user_id direct toss now db confirmed in
    let f = Confirm-IsConfirmed req user_id toss now db c in
    let user_now : db1.users user_id ≡ some (charge c.g u) =
      f.users_are user_id ∙ rw (eu, (==_iff user_id user_id).1 refl) refl in
    let group_now : db1.order_groups req.order_group_number ≡ some (complete_group p.id c.g) =
      f.groups_are req.order_group_number
      ∙ rw ((==_iff req.order_group_number req.order_group_number).1 refl) refl in
    let db2 = issue_reward user_id p req.order_group_number level db1 in
    let r =
      issue_reward-IsRewarded user_id req.order_group_number p level db1 user_now
        (ap (Option.map (λ y. y -ℤ pos c.g.points_used)) points) group_now in
    let (q, g2, toss2, fine, _, done) =
      cancel-IsRefunded toss_cancel clock p.id amount _ cancelled in
    let found : p ≡ q = found_again req user_id toss now db p level db1 _ _ c r fine.found in
    restored req user_id toss now db p level db1 _ _ c r g2 toss2 same fresh
      (ap (λ h. h.orderer_id) (some-injective (sym c.group_found ∙ eg)) ∙ owner)
      (subst (λ x. db2.order_groups x.order_group_number ≡ some g2) (sym found) fine.group_found)
      (subst (λ x. IsRefunded order_cancelled x g2 toss2 db2 p' db') (sym found) done) k
