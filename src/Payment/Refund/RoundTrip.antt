-- ===== src/Payment/Refund/RoundTrip.antt =====
-- What a payment, its reward and its cancellation do to the balances of one user.
use mathlib.Core.Option
use lif_low_backend.Prelude.{
  ℕ, ℤ, pos, ◌+ℤ◌, ◌-ℤ◌, int_laws, ◌≡◌, refl, Option, none, some, [], arith, ◌==◌, if◌then◌else◌,
  map_same, ap, Bool-cases, inl, inr,
}
use lif_low_backend.Schema.{User, OrderGroup}
use lif_low_backend.Points.{Sums}
use lif_low_backend.Points.Laws.{sums_of, plus, refund}
use lif_low_backend.Membership.Laws.{balances}
use lif_low_backend.Payment.Confirm.Effects.{charge}
use lif_low_backend.Payment.Confirm.Earned.{earn}
use lif_low_backend.Payment.Refund.{subtract_purchase}
use lif_low_backend.Payment.Refund.Effects.{unpurchase}

sub_add_net : (z : ℤ) (a n : ℕ) → z -ℤ pos a +ℤ pos n +ℤ (pos a -ℤ pos n) ≡ z
sub_add_net z a n = omega int_laws

add_sub : (z : ℤ) (a : ℕ) → z +ℤ pos a -ℤ pos a ≡ z
add_sub z a = omega int_laws

-- What a payment does to the user who pays, and the cancellation undoes.
there_and_back :
    (n : ℕ) (g : OrderGroup) (u : User)
    → balances (
        subtract_purchase g.final_amount
          (refund (record { increase = n; deduction = g.points_used }) (earn n (charge g u))))
      ≡ balances u
there_and_back n g u = λ i. (
  available u.available_points i,
  round_trip g.points_used u.total_used_points i,
  round_trip g.final_amount u.total_purchase_amount i,
)
  where
    round_trip :
        (a : ℕ) (o : Option ℤ) → Option.map (λ z. z -ℤ pos a) (Option.map (λ z. z +ℤ pos a) o) ≡ o
    round_trip a none = refl
    round_trip a (some z) = ap some (add_sub z a)

    available :
        (o : Option ℤ)
        → Option.map
            (λ z. z +ℤ (pos g.points_used -ℤ pos n))
            (Option.map (λ z. z +ℤ pos n) (Option.map (λ z. z -ℤ pos g.points_used) o))
          ≡ o
    available none = refl
    available (some z) = ap some (sub_add_net z g.points_used n)

refund_nothing :
    (u : User) → balances (refund (record { increase = 0; deduction = 0 }) u) ≡ balances u
refund_nothing u = λ i. (
  map_same (λ z. z +ℤ (pos 0 -ℤ pos 0)) u.available_points even i,
  map_same (λ z. z -ℤ pos 0) u.total_used_points less_nothing i,
  u.total_purchase_amount,
)
  where
    even : (z : ℤ) → z +ℤ (pos 0 -ℤ pos 0) ≡ z
    even z = omega int_laws

    less_nothing : (z : ℤ) → z -ℤ pos 0 ≡ z
    less_nothing z = omega int_laws

module _ (user_id n : ℕ) (g : OrderGroup) where
  abbrev pub paid : ℕ → User → User
  paid k u = if user_id == k then charge g u else u

  abbrev pub rewarded : ℕ → User → User
  rewarded k u = if user_id == k then earn n u else u

  -- The point records that the payment and its reward leave at user `k`.
  abbrev pub recorded : ℕ → Sums
  recorded k =
      if user_id == k
      then record { increase = n; deduction = g.points_used }
      else record { increase = 0; deduction = 0 }

  one_user :
      (k : ℕ) (g' : OrderGroup) (u : User)
      → g'.orderer_id ≡ some user_id
      → g'.final_amount ≡ g.final_amount
      → balances (unpurchase k g' (refund (recorded k) (rewarded k (paid k u)))) ≡ balances u
  one_user k g' u owner amount = elim (Bool-cases (user_id == k)) [
    | inl e ↦ rw (owner, e, amount) (there_and_back n g u)
    | inr e ↦ rw (owner, e) (refund_nothing u)
  ]

  -- For every user, the balances are those before.
  pub every_user :
      (k : ℕ) (g' : OrderGroup) (o : Option User)
      → g'.orderer_id ≡ some user_id
      → g'.final_amount ≡ g.final_amount
      → Option.map balances (
          Option.map
            (unpurchase k g')
            (Option.map (refund (recorded k)) (Option.map (rewarded k) (Option.map (paid k) o))))
        ≡ Option.map balances o
  every_user k g' none owner amount = refl
  every_user k g' (some u) owner amount = ap some (one_user k g' u owner amount)

  abbrev pub earned : ℕ → Sums
  earned k =
      if user_id == k
      then record { increase = n; deduction = 0 }
      else record { increase = 0; deduction = 0 }

  abbrev pub spent : ℕ → Sums
  spent k =
      if user_id == k
      then record { increase = 0; deduction = g.points_used }
      else record { increase = 0; deduction = 0 }

  -- The sums over the two records.
  pub sums_even : (k : ℕ) → plus (earned k) (plus (spent k) (sums_of k [])) ≡ recorded k
  sums_even k = ground arith
