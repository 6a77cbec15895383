-- ===== src/Tests/Baskets.antt =====
-- The theorems on carts, tried on the small database.
use lif_low_backend.Prelude.{
  ℕ, ◌≡◌, refl, some, none, List, [], ◌∷◌, arith, unique, ◌==◌, ==_iff, Bool-cases, inl, inr,
  some-injective, sym, ◌∙◌,
}
use lif_low_backend.Schema.{Db, ok}
use lif_low_backend.Carts.{cart_total, recalculate_cart_total, set_item}
use lif_low_backend.Carts.Items.{
  add_item, add_item_tx, ItemUpdate, update_item, write_item, BulkEntry, bulk_update_items,
  check_bulk, write_items, recalculate_all,
}
use lif_low_backend.Carts.Items.Kept.{IsKept}
use lif_low_backend.Carts.Items.Effects.{IsAdded, add_item-IsAdded}
use lif_low_backend.Carts.Service.{clear_cart, checkout_cart}
use lif_low_backend.Carts.Service.Steps.{CartRun, next, stop, adding, updating_all, clearing}
use lif_low_backend.Carts.Service.Totals.{run-IsKept}
use lif_low_backend.Carts.Service.CheckOut.{checkout_cart-stale}
use lif_low_backend.Tests.{start, value_or}

start_known : (c total : ℕ) → start.carts c ≡ some total → (c ≡ 9) × (total ≡ 10000)
start_known c total e = elim (Bool-cases (c == 9)) [
  | inl same ↦ ((==_iff c 9).0 same, sym (some-injective (rw same at e)))
  | inr other ↦ cc (rw other at e)
]

start-IsKept : IsKept [] start
start-IsKept = record {
  distinct = (tt, tt);
  bounded = ((omega arith, omega arith), tt);
  known = λ c total e. let (q, _) = start_known c total e in omega (arith, q);
  totals = λ c total _ e. let (q, t) = start_known c total e in t ∙ rw q refl;
}

abbrev added : Db
added = value_or start (add_item 9 1 3 start)

abbrev changes : List BulkEntry
changes = (3, record { product_id = none; quantity = some 4 }) ∷ []

abbrev changed : Db
changed = value_or start (bulk_update_items changes added)

abbrev cleared : Db
cleared = value_or start (clear_cart 9 changed)

-- Five pieces after the addition, four after the change, none at the end.
added_total : added.carts 9 ≡ some 25000
unfolding add_item add_item_tx recalculate_cart_total set_item
added_total = refl

changed_total : changed.carts 9 ≡ some 20000
unfolding add_item add_item_tx recalculate_cart_total set_item bulk_update_items check_bulk
    write_items write_item recalculate_all unique
changed_total = refl

run : CartRun start cleared
unfolding add_item add_item_tx recalculate_cart_total set_item bulk_update_items check_bulk
    write_items write_item recalculate_all unique clear_cart
run = next (adding 9 1 3 refl) (next (updating_all changes refl) (next (clearing 9 refl) stop))

run-IsKept_example : IsKept [] cleared
run-IsKept_example = run-IsKept start-IsKept run

start-added : add_item 9 1 3 start ≡ ok added
unfolding add_item add_item_tx recalculate_cart_total set_item
start-added = refl

add_item-IsAdded_example : IsAdded 9 1 3 start added
add_item-IsAdded_example = add_item-IsAdded 9 1 3 start (tt, tt) start-added

abbrev four : ItemUpdate
four = record { product_id = none; quantity = some 4 }

abbrev with_four : Db
with_four = value_or start (update_item 3 four start)

start_updated : update_item 3 four start ≡ ok with_four
unfolding update_item write_item recalculate_cart_total set_item
start_updated = refl

abbrev checked : Db
checked = value_or start (checkout_cart 9 5 start)

start-checked : checkout_cart 9 5 start ≡ ok checked
unfolding checkout_cart
start-checked = refl

checkout_cart-stale_example :
    (checked.carts 9 ≡ start.carts 9) × (cart_total 9 checked.cart_items ≡ 0)
checkout_cart-stale_example = checkout_cart-stale 9 5 start start-checked
