-- ===== src/Schema/Rows.antt =====
-- The models of prisma/schema.prisma as records, and the database.
use lif_low_backend.Prelude.{
  ℕ, ℤ, String, Bool, Option, some, List, if◌then◌else◌, ◌==◌, leb, true, ◌&&◌, ◌||◌, [], ◌∷◌,
}
use lif_low_backend.Schema.Enums.{
  OrderSituation, PaymentStatus, PaymentType, CouponType, CouponHistoryStatus, CartItemStatus,
  PointsType,
}

-- A text that a service looks into, as its UTF-16 code units.
abbrev pub Text : Type 0
Text = List ℕ

-- The code units that `trim` takes away.
abbrev pub is_space : ℕ → Bool
is_space c =
    (leb 9 c && leb c 13)
    || c == 32
    || c == 160
    || c == 5760
    || (leb 8192 c && leb c 8202)
    || c == 8232
    || c == 8233
    || c == 8239
    || c == 8287
    || c == 12288
    || c == 65279

abbrev pub is_blank_text : Text → Bool
is_blank_text [] = true
is_blank_text (c ∷ cs) = is_space c && is_blank_text cs

-- The balances are not bounded below: the services decrement them unconditionally.
pub record User : Type 0 where
  pub name : Option String
  pub phone_number : Option String
  pub membership_level : Option String
  pub available_points : Option ℤ
  pub total_used_points : Option ℤ
  pub total_purchase_amount : Option ℤ

pub record UserMembership : Type 0 where
  pub membership_id : ℕ
  pub membership_name : String
  pub membership_description : String
  pub status : String
  pub start_date : ℕ
  pub end_date : ℕ

pub record Membership : Type 0 where
  pub id : ℕ
  pub name : Option String
  pub description : Option String
  pub min_price : Option ℕ
  pub base_period : Option ℕ

-- `origin` is the stock that the payment services check and decrement.
pub record Product : Type 0 where
  pub product_name : Option String
  pub sale_price : Option ℕ
  pub origin : Option ℤ
  pub stock_quantity : Option ℤ
  pub display_status : Option Text

pub record CartItem : Type 0 where
  pub id : ℕ
  pub cart_id : ℕ
  pub product_id : ℕ
  pub quantity : ℕ
  pub sale_price : ℕ
  pub status : CartItemStatus

pub record Order : Type 0 where
  pub id : ℕ
  pub order_group_number : Option ℕ
  pub product_id : Option ℕ
  pub quantity : Option ℕ
  pub total_order_amount : Option ℕ
  pub total_payment_amount : Option ℕ
  pub discount_amount : ℕ
  pub coupon_used : List ℕ

pub record OrderGroup : Type 0 where
  pub original_amount : ℕ
  pub discount_amount : ℕ
  pub orderer_id : Option ℕ
  pub situation : OrderSituation
  pub final_amount : ℕ
  pub points_used : ℕ
  pub cart_item_ids : List ℕ
  pub delivery_fee : ℕ
  pub payment_id : Option ℕ
  pub courier_company : Option Text
  pub invoice_number : Option Text

-- `details` stands for the columns that are copied from Toss and never read by a modelled service.
pub record Payment : Type 0 where
  pub id : ℕ
  pub user_id : ℕ
  pub order_group_number : ℕ
  pub payment_key : ℕ
  pub total_amount : ℕ
  pub balance_amount : ℕ
  pub status : PaymentStatus
  pub payment_type : PaymentType
  pub canceled_amount : ℤ
  pub approved_at : Option ℕ
  pub details : ℕ

pub record Point : Type 0 where
  pub user_id : Option ℕ
  pub order_group_number : Option ℕ
  pub points_type : PointsType
  pub membership_level : Option String
  pub available_points_increase : Option ℕ
  pub available_points_deduction : Option ℕ
  pub available_points_balance : Option ℤ

pub record Coupon : Type 0 where
  pub id : ℕ
  pub code : String
  pub coupon_type : CouponType
  pub discount_rate : Option ℕ
  pub discount_amount : Option ℕ
  pub max_discount_amount : Option ℕ
  pub min_purchase_amount : ℕ
  pub is_permanent : Bool
  pub is_active : Bool
  pub is_auto_issue : Bool
  pub target_grades : List String
  pub start_date : Option ℕ
  pub end_date : Option ℕ

pub record CouponHistory : Type 0 where
  pub id : ℕ
  pub coupon_id : Option ℕ
  pub user_id : ℕ
  pub quantity : ℕ
  pub order_id : Option ℕ
  pub status : CouponHistoryStatus
  pub start_date : Option ℕ
  pub end_date : Option ℕ
  pub payment_id : Option ℕ
  pub issued_at : ℕ
  pub used_at : Option ℕ
  pub expired_at : Option ℕ
  pub cancelled_at : Option ℕ
  pub discount_applied_amount : Option ℕ
  pub purchase_amount_at_use : Option ℕ

abbrev pub Table {ℓ} : Type ℓ → Type ℓ
Table V = ℕ → Option V

-- The row of one key replaced.
abbrev pub put {ℓ} : {V : Type ℓ} → ℕ → V → Table V → Table V
put k v t j = if j == k then some v else t j

-- The tables (`carts` holds the total of each cart, `cart_of` its unique column for the user,
-- `checked_out_at` when it was checked out, and `address_owner` the user of each shipping address), and the last identifier that was handed out (`@default(uuid())`).
pub record Db : Type 0 where
  pub users : Table User
  pub user_memberships : Table UserMembership
  pub memberships : List Membership
  pub products : Table Product
  pub carts : Table ℕ
  pub cart_of : Table ℕ
  pub checked_out_at : Table ℕ
  pub address_owner : Table ℕ
  pub cart_items : List CartItem
  pub orders : List Order
  pub order_groups : Table OrderGroup
  pub payments : List Payment
  pub points : List Point
  pub coupons : List Coupon
  pub coupon_histories : List CouponHistory
  pub last_id : ℕ
