-- ===== src/Carts/Service/CheckOut.antt =====
-- The check-out of a cart.
use lif_low_backend.Prelude.{
  ℕ, ◌≡◌, refl, sym, ap, ◌∙◌, not, List, [], ◌∷◌, arith, map, filter, any, is_empty,
}
use lif_low_backend.Schema.{
  CartItem, is_active, Db, ok, >>=-eq-ok, ok-injective, or_throw, throw_if, ◌>>◌,
}
use lif_low_backend.Carts.{cart_total}
use lif_low_backend.Carts.Items.{is_in}
use lif_low_backend.Carts.Service.{check_out, checkout_cart}
use lif_low_backend.Carts.Service.Totals.{cart_handled-eq-ok}

nothing_active : (c : ℕ) (is : List CartItem) → cart_total c (map (check_out c) is) ≡ 0
nothing_active c [] = refl
nothing_active c (i ∷ is) = ground (arith, nothing_active c is)

-- After a check-out the cart has no active item left to pay for, and keeps the total that it had
-- before.
pub checkout_cart-stale :
    (cart now : ℕ) (db : Db) {db' : Db}
    → checkout_cart cart now db ≡ ok db'
    → (db'.carts cart ≡ db.carts cart) × (cart_total cart db'.cart_items ≡ 0)
unfolding checkout_cart
checkout_cart-stale cart now db h =
    let items = filter (is_in cart) db.cart_items in
    let (_, _, h1) = >>=-eq-ok (or_throw (db.carts cart) _) _ (cart_handled-eq-ok _ h) in
    let (_, _, made) =
      >>=-eq-ok
        (throw_if (is_empty items) _ >> throw_if (not (any (λ i. is_active i.status) items)) _) _
        h1 in
    let q = sym (ok-injective made) in
    (
      ap (λ (d : Db). d.carts cart) q,
      ap (λ (d : Db). cart_total cart d.cart_items) q ∙ nothing_active cart db.cart_items,
    )
