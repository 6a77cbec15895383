-- ===== src/Carts/Service/Steps.antt =====
-- The operations on carts and their items as the steps of one relation on the database, but for
-- the check-out of a cart.
use lif_low_backend.Prelude.{ℕ, Option, List, ◌≡◌}
use lif_low_backend.Schema.{Db, ok}
use lif_low_backend.Carts.{remove_item, update_item_quantity, remove_items}
use lif_low_backend.Carts.Items.{
  ItemUpdate, BulkEntry, add_item, update_item, bulk_update_items, clear_items_by_cart_id,
}
use lif_low_backend.Carts.Service.{
  create_cart, add_item_to_cart, clear_cart, delete_cart, update_cart,
}

pub data CartStep : Db → Db → Type 0 where
  removing : (k : ℕ) {db db' : Db} → remove_item k db ≡ ok db' → CartStep db db'
  removing_all : (ks : List ℕ) {db : Db} → CartStep db (remove_items ks db)
  setting_quantity :
      (k quantity : ℕ) {db db' : Db} → update_item_quantity k quantity db ≡ ok db' → CartStep db db'
  adding :
      (cart product quantity : ℕ) {db db' : Db}
      → add_item cart product quantity db ≡ ok db'
      → CartStep db db'
  updating : (k : ℕ) (u : ItemUpdate) {db db' : Db} → update_item k u db ≡ ok db' → CartStep db db'
  updating_all :
      (es : List BulkEntry) {db db' : Db} → bulk_update_items es db ≡ ok db' → CartStep db db'
  clearing_items :
      (cart : ℕ) {db db' : Db} → clear_items_by_cart_id cart db ≡ ok db' → CartStep db db'
  creating : (user cart : ℕ) {db db' : Db} → create_cart user db ≡ ok (cart, db') → CartStep db db'
  adding_to_cart :
      (user product quantity : ℕ) {db : Db}
      → CartStep db (add_item_to_cart user product quantity db).0
  clearing : (cart : ℕ) {db db' : Db} → clear_cart cart db ≡ ok db' → CartStep db db'
  deleting : (cart : ℕ) {db db' : Db} → delete_cart cart db ≡ ok db' → CartStep db db'
  changing_user :
      (cart : ℕ) (user : Option ℕ) {db db' : Db}
      → update_cart cart user db ≡ ok db'
      → CartStep db db'

-- Any number of steps.
pub data CartRun : Db → Db → Type 0 where
  stop : {db : Db} → CartRun db db
  next : {db db1 db' : Db} → CartStep db db1 → CartRun db1 db' → CartRun db db'
