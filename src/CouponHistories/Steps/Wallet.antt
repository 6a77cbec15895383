-- ===== src/CouponHistories/Steps/Wallet.antt =====
-- The contract of coupon histories: how many coupons of each kind each user holds, what each step
-- may do to these numbers, and nothing of how they are spread over rows.
use lif_low_backend.Prelude.{
  ℕ, ◌+◌, ◌≤◌, ◌≡◌, true, false, List, [], ◌∷◌, ◌==◌, if◌then◌else◌, contains, filter, length, ◌&&◌,
  ◌⊎◌,
}
use lif_low_backend.Coupons.{Histories}
use lif_low_backend.Coupons.Used.{held}
use lif_low_backend.CouponHistories.Held.{given}
use lif_low_backend.CouponHistories.Issuance.{users_at}
use lif_low_backend.CouponHistories.Schedule.Monthly.{is_meant}
use lif_low_backend.CouponHistories.Steps.{
  Step, issuing, issuing_by_grades, paying, using, cancelling, on_birthday, after_update, monthly,
  nightly, expiring, reactivating, expiring_old, deleting, Run, stay, step,
}

-- How many coupons of a kind a user holds.
abbrev pub Wallet : Type 0
Wallet = ℕ → ℕ → ℕ

abbrev pub wallet_of : Histories → Wallet
wallet_of s j v = held j v s.0

pub data Event : Type 0 where
  -- A coupon is issued to users who have none of it, or offered to users whatever they have.
  issue offer : ℕ → List ℕ → Event
  -- Up to so many coupons of a kind are spent by a user.
  use_up : ℕ → ℕ → ℕ → Event
  -- A user gets some coupons.
  welcome : ℕ → Event
  -- Users get coupons by numbers.
  grant : (ℕ → ℕ → ℕ) → Event
  -- A kind of coupon runs out, or comes back.
  void revive : ℕ → Event
  -- One user loses coupons of one kind; users lose coupons; nothing can happen.
  withdraw lose never : Event

-- What an event may do to the numbers.
unfoldable pub Move : Event → Wallet → Wallet → Type 0
Move (issue k us) w w' =
    ((v : ℕ) → contains v us ≡ true → w k v ≡ 0) × ((j v : ℕ) → w' j v ≡ w j v + given j v k 1 us)
Move (offer k us) w w' =
    ((j v : ℕ) → w' j v ≡ w j v) ⊎ ((j v : ℕ) → w' j v ≡ w j v + given j v k 1 us)
Move (use_up k u q) w w' = (n : ℕ) × (n ≤ q) × ((j v : ℕ) → w' j v + given j v k n (u ∷ []) ≡ w j v)
Move (welcome u) w w' = (j v : ℕ) → (w j v ≤ w' j v) × ((u == v) ≡ false → w' j v ≡ w j v)
Move (grant numbers) w w' = (j v : ℕ) → w' j v ≡ w j v + numbers j v
Move (void k) w w' = (j v : ℕ) → w' j v ≡ (if k == j then 0 else w j v)
Move (revive k) w w' = (j v : ℕ) → (w j v ≤ w' j v) × ((k == j) ≡ false → w' j v ≡ w j v)
Move withdraw w w' = (k u n : ℕ) × ((j v : ℕ) → w' j v + given j v k n (u ∷ []) ≡ w j v)
Move lose w w' = (j v : ℕ) → w' j v ≤ w j v
Move never w w' = ⊥

-- The event that a step is to the users.
unfoldable pub event_of : {s s' : Histories} → Step s s' → Event
event_of (issuing k us coupons now n h) = issue k us
event_of (issuing_by_grades k grades period ids users coupons now n h) =
    offer k (users_at grades ids users)
event_of (paying k q u) = use_up k u.user_id q
event_of (using share coupons now d r u h) = never
event_of (cancelling id now h) = withdraw
event_of (on_birthday coupons user now) = welcome user
event_of (after_update users coupons o) = welcome o.user_id
event_of (monthly ids users month now coupons) =
    grant λ j v. length (filter (λ c. c.id == j && is_meant ids users v c) coupons)
event_of (nightly today coupons) = lose
event_of (expiring k) = void k
event_of (reactivating k now) = revive k
event_of (expiring_old now) = lose
event_of (deleting payment) = lose

-- The events that the steps of a run are, the first one first.
unfoldable pub events_of : {s s' : Histories} → Run s s' → List Event
events_of stay = []
events_of (step a rest) = event_of a ∷ events_of rest

-- What these events, in this order, may do to the numbers.
unfoldable pub Moves : List Event → Wallet → Wallet → Type 0
Moves [] w w' = (j v : ℕ) → w' j v ≡ w j v
Moves (e ∷ es) w w' = (next : Wallet) × Move e w next × Moves es next w'
