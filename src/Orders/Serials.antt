-- ===== src/Orders/Serials.antt =====
-- Which serial the next order of a group gets (`generateUniqueOrderNumber` in
-- src/modules/order/order.service.ts).
use lif_low_backend.Prelude.{
  ℕ, suc, ◌-◌, ◌/◌, ◌%◌, ◌≤◌, ◌<◌, ◌≡◌, refl, ap, ◌∙◌, true, false, Option, none, some, [], ◌∷◌,
  ltb, ◌==◌, inl, inr, arith, Bool-cases, ==_iff,
}
use lif_low_backend.Schema.{ok}
use lif_low_backend.Orders.Numbers.{
  Numbers, digits, serial_text, text_before, later_serial, last_serial, generate_order_number,
  is_taken, generate_unique_order_number,
}

-- Every serial of the group is below the bound.
abbrev pub AreBelow : ℕ → ℕ → Numbers → Type 0
AreBelow bound group [] = Unit
AreBelow bound group ((g, n) ∷ numbers) =
    ((g == group) ≡ true → n < bound) × AreBelow bound group numbers

digits_pair : (f n : ℕ) → 10 ≤ n → n < 100 → digits (suc (suc f)) n ≡ n / 10 ∷ n % 10 ∷ []
unfolding digits
digits_pair f n h k = ground arith

pair : {a b c d : ℕ} → a ≡ c → b ≡ d → a ∷ b ∷ [] ≡ c ∷ d ∷ []
pair p q = rw (p, q)

-- A serial of at most two digits.
pub serial_text_pair : (n : ℕ) → n < 100 → serial_text n ≡ n / 10 ∷ n % 10 ∷ []
unfolding serial_text
serial_text_pair n h = elim (Bool-cases (ltb n 10)) [
  | inl small ↦ let lt : n < 10 = ground arith in rw small (pair (omega arith) (omega arith))
  | inr large ↦
      let ge : 10 ≤ n = ground arith in
      let e : n ≡ suc (suc (n - 2)) = omega arith in
      rw large (ap (λ f. digits f n) e ∙ digits_pair (n - 2) n ge h)
]

-- Texts of two digits are ordered as the numbers are.
pub text_before_pair :
    (a b : ℕ) → a < 100 → b < 100 → text_before (serial_text a) (serial_text b) ≡ ltb a b
unfolding text_before
text_before_pair a b h k = rw (serial_text_pair a h, serial_text_pair b k) (ground arith)

later_serial_greatest :
    (n m : ℕ)
    → n < 100
    → m < 100
    → (n ≤ later_serial n (some m))
      × (m ≤ later_serial n (some m))
      × (later_serial n (some m) < 100)
later_serial_greatest n m h k = rw (text_before_pair n m h k) (ground arith)

-- What the last serial says of all of them.
abbrev IsLast : ℕ → Numbers → Option ℕ → Type 0
IsLast group numbers none = (n : ℕ) → is_taken group n numbers ≡ false
IsLast group numbers (some m) = (m < 100) × ((n : ℕ) → is_taken group n numbers ≡ true → n ≤ m)

IsLast-cons :
    (group n : ℕ) (numbers : Numbers) (o : Option ℕ)
    → n < 100
    → IsLast group numbers o
    → IsLast group ((group, n) ∷ numbers) (some (later_serial n o))
IsLast-cons group n numbers none h l = (h, λ j t. ground (arith, l j))
IsLast-cons group n numbers (some m) h l =
    let (a, b, c) = later_serial_greatest n m h l.0 in
    (c, λ j t. greatest group n numbers m (later_serial n (some m)) j a b (l.1 j) t)
  where
    greatest :
        (group n : ℕ) (numbers : Numbers) (m k j : ℕ)
        → n ≤ k
        → m ≤ k
        → (is_taken group j numbers ≡ true → j ≤ m)
        → is_taken group j ((group, n) ∷ numbers) ≡ true
        → j ≤ k
    greatest group n numbers m k j a b f t = elim (Bool-cases (is_taken group j numbers)) [
      | inl e ↦ ground (arith, f e)
      | inr e ↦ ground (arith)
    ]

IsLast-skip :
    (group g n : ℕ) (numbers : Numbers) (o : Option ℕ)
    → (g == group) ≡ false
    → IsLast group numbers o
    → IsLast group ((g, n) ∷ numbers) o
IsLast-skip group g n numbers none e l = λ j. rw e (l j)
IsLast-skip group g n numbers (some m) e l = (l.0, λ j t. l.1 j (rw e at t))

last_serial-IsLast :
    (group : ℕ) (numbers : Numbers)
    → AreBelow 100 group numbers
    → IsLast group numbers (last_serial group numbers)
unfolding last_serial
last_serial-IsLast group [] h = λ n. refl
last_serial-IsLast group ((g, n) ∷ numbers) h = elim (Bool-cases (g == group)) [
  | inl same ↦
      let q : g ≡ group = (==_iff g group).0 same in
      rw (same, q)
        (IsLast-cons group n numbers (last_serial group numbers) (h.0 same)
          (last_serial-IsLast group numbers h.1))
  | inr other ↦ rw other (
      IsLast-skip group g n numbers (last_serial group numbers) other
        (last_serial-IsLast group numbers h.1))
]

next_free :
    (group : ℕ) (numbers : Numbers) (o : Option ℕ)
    → IsLast group numbers o
    → is_taken group (elim o [ none ↦ 1 | some n ↦ suc n ]) numbers ≡ false
next_free group numbers none l = l 1
next_free group numbers (some m) l = elim (Bool-cases (is_taken group (suc m) numbers)) [
  | inl t ↦ absurd (let le : suc m ≤ m = l.1 (suc m) t in omega arith)
  | inr f ↦ f
]

-- As long as a group has no serial of three digits, the next order gets a serial that is free, one
-- more than the last, at the first attempt.
pub generate_unique_order_number-free :
    (group : ℕ) (numbers : Numbers)
    → AreBelow 100 group numbers
    → (generate_unique_order_number 5 group numbers ≡ ok (generate_order_number group numbers))
      × (is_taken group (generate_order_number group numbers) numbers ≡ false)
unfolding generate_unique_order_number generate_order_number
generate_unique_order_number-free group numbers h =
    let free =
      next_free group numbers (last_serial group numbers) (last_serial-IsLast group numbers h) in
    (rw free refl, free)
