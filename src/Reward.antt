-- ===== src/Reward.antt =====
-- The reward after a payment: `issueAfterPayment` in src/modules/point/point.service.ts, with the
-- calls of src/modules/point/repositories/point.repository.ts that it makes. The table of rates is
-- in percent with one decimal; a rate here is in tenths of a percent. The amounts are whole won
-- far below 2 ^ 53, where the doubles of the source give the same whole part.
pub mod Laws
use text.Mathlib.Text.{◌==◌ as str_eq}
use lif_low_backend.Prelude.{
  ℕ, ◌*◌, ◌/◌, ℤ, pos, ◌+ℤ◌, String, Option, none, some, List, ◌∷◌, ◌==◌, if◌then◌else◌, get_or,
}
use lif_low_backend.Schema.{
  User, OrderGroup, Point, reward, Table, put, Result, ok, ◌>>=◌, ◌>>◌, or_throw, not_found,
  user_not_found, order_group_not_found,
}

-- `REWARD_RATE_BY_LEVEL`, with 0 for a level that it does not list.
unfoldable pub rate_of_level : String → ℕ
rate_of_level level =
    if str_eq level "LV1. 씨앗"
    then 10
    else if str_eq level "LV2. 새싹"
    then 20
    else if str_eq level "LV3. 열매"
    then 25
    else if str_eq level "LV4. 나무"
    then 30
    else if str_eq level "LV5. 정원"
    then 30
    else 0

abbrev pub reward_rate : Option String → ℕ
reward_rate none = 0
reward_rate (some level) = rate_of_level level

-- `Math.floor((totalPurchaseAmount * rate) / 100)`
unfoldable pub points_increase : ℕ → Option String → ℕ
points_increase amount level = amount * reward_rate level / 1000

abbrev pub reward_point : ℕ → Option ℕ → Option String → ℕ → ℤ → Point
reward_point user_id group level increase balance = record {
  user_id = some user_id;
  order_group_number = group;
  points_type = reward;
  membership_level = level;
  available_points_increase = some increase;
  available_points_deduction = none;
  available_points_balance = some balance;
}

-- The row that `connect` names is there: a missing one is the error that the repository turns
-- into "not found".
abbrev pub connect {ℓ} : {V : Type ℓ} → Option ℕ → Table V → Result (Unit {0})
connect none t = ok tt
connect (some k) t = or_throw (t k) (not_found order_group_not_found) >>= λ _. ok tt

-- The user and the points after the call. The level that selects the rate is the one before the
-- payment; the record keeps the present one.
unfoldable pub issue_after_payment :
    (user_id amount : ℕ) (group : Option ℕ) (level_before : Option String)
    → Table OrderGroup
    → Table User × List Point
    → Result (Table User × List Point)
issue_after_payment user_id amount group level_before groups (users, points) =
    let increase = points_increase amount level_before in
    if increase == 0 then ok (users, points) else do
      u ← or_throw (users user_id) (not_found user_not_found)
      connect group groups
      let balance = get_or u.available_points (pos 0) +ℤ pos increase
      ok (
        put user_id (record u { available_points = some balance }) users,
        reward_point user_id group u.membership_level increase balance ∷ points,
      )
