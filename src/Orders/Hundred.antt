-- ===== src/Orders/Hundred.antt =====
-- A group with a hundred orders (`generateUniqueOrderNumber` in
-- src/modules/order/order.service.ts).
use native.Mathlib.Nat.{le_trans}
use lif_low_backend.Prelude.{
  ℕ, suc, ◌*◌, ◌≤◌, ◌<◌, ◌≡◌, zero, subst, refl, ap, sym, true, false, Option, none, some, [], ◌∷◌,
  ltb, ◌==◌, if◌then◌else◌, inl, inr, arith, Bool-cases, ==_iff,
}
use lif_low_backend.Schema.{err, internal, no_unique_number}
use lif_low_backend.Orders.Numbers.{
  Numbers, digits, serial_text, text_before, later_serial, last_serial, generate_order_number,
  is_taken, generate_unique_order_number,
}
use lif_low_backend.Orders.Serials.{AreBelow, serial_text_pair, text_before_pair}

-- The place of a serial of at most 100 in the order of texts: "100" stands right after "10".
abbrev place : ℕ → ℕ
place n = if n == 100 then 21 else 2 * n

hundred_text : serial_text 100 ≡ 1 ∷ 0 ∷ 0 ∷ []
unfolding serial_text digits
hundred_text = refl

hundred_before : (n : ℕ) → n < 100 → text_before (serial_text 100) (serial_text n) ≡ ltb 21 (2 * n)
unfolding text_before
hundred_before n h = rw (hundred_text, serial_text_pair n h) (ground arith)

before_hundred : (n : ℕ) → n < 100 → text_before (serial_text n) (serial_text 100) ≡ ltb (2 * n) 21
unfolding text_before
before_hundred n h = rw (hundred_text, serial_text_pair n h) (ground arith)

hundred_self : text_before (serial_text 100) (serial_text 100) ≡ false
unfolding text_before
hundred_self = rw hundred_text refl

later_place :
    (n m : ℕ)
    → n ≤ 100
    → m ≤ 100
    → (place n ≤ place (later_serial n (some m)))
      × (place m ≤ place (later_serial n (some m)))
      × (later_serial n (some m) ≤ 100)
later_place n m h k = elim (Bool-cases (n == 100)) [
  | inl e ↦
      let p : n ≡ 100 = (==_iff n 100).0 e in
      elim (Bool-cases (m == 100)) [
        | inl f ↦ let q : m ≡ 100 = (==_iff m 100).0 f in rw (p, q, hundred_self) (omega arith)
        | inr f ↦ rw (p, hundred_before m (ground arith)) (ground arith)
      ]
  | inr e ↦ elim (Bool-cases (m == 100)) [
    | inl f ↦
        let q : m ≡ 100 = (==_iff m 100).0 f in
        rw (q, before_hundred n (ground arith)) (ground arith)
    | inr f ↦ rw (text_before_pair n m (ground arith) (ground arith)) (ground arith)
  ]
]

abbrev IsLastText : ℕ → Numbers → Option ℕ → Type 0
IsLastText group numbers none = (n : ℕ) → is_taken group n numbers ≡ false
IsLastText group numbers (some m) =
    (m ≤ 100) × ((n : ℕ) → is_taken group n numbers ≡ true → place n ≤ place m)

taken-cases :
    (group j n : ℕ) (numbers : Numbers)
    → is_taken group j ((group, n) ∷ numbers) ≡ true
    → is_taken group j numbers ≡ false
    → n ≡ j
taken-cases group j n numbers h f = ground arith

cons-IsLastText :
    (group n : ℕ) (numbers : Numbers) (o : Option ℕ)
    → n ≤ 100
    → IsLastText group numbers o
    → IsLastText group ((group, n) ∷ numbers) (some (later_serial n o))
cons-IsLastText group n numbers none h l =
    (h, λ j t. rw (taken-cases group j n numbers t (l j)) (omega arith))
cons-IsLastText group n numbers (some m) h l =
    let (a, b, c) = later_place n m h l.0 in
    (
      c,
      λ j t. elim (Bool-cases (is_taken group j numbers)) [
        | inl e ↦ let d = l.1 j e in le_trans d b
        | inr e ↦
            subst (λ x. place x ≤ place (later_serial n (some m)))
              (taken-cases group j n numbers t e) a
      ],
    )

skip-IsLastText :
    (group g n : ℕ) (numbers : Numbers) (o : Option ℕ)
    → (g == group) ≡ false
    → IsLastText group numbers o
    → IsLastText group ((g, n) ∷ numbers) o
skip-IsLastText group g n numbers none e l = λ j. rw e (l j)
skip-IsLastText group g n numbers (some m) e l = (l.0, λ j t. l.1 j (rw e at t))

last_serial-IsLastText :
    (group : ℕ) (numbers : Numbers)
    → AreBelow 101 group numbers
    → IsLastText group numbers (last_serial group numbers)
unfolding last_serial
last_serial-IsLastText group [] h = λ n. refl
last_serial-IsLastText group ((g, n) ∷ numbers) h = elim (Bool-cases (g == group)) [
  | inl same ↦
      let q : g ≡ group = (==_iff g group).0 same in
      let le : n ≤ 100 = let lt = h.0 same in omega arith in
      rw (same, q)
        (cons-IsLastText group n numbers (last_serial group numbers) le
          (last_serial-IsLastText group numbers h.1))
  | inr other ↦ rw other (
      skip-IsLastText group g n numbers (last_serial group numbers) other
        (last_serial-IsLastText group numbers h.1))
]

last_is_99 :
    (group : ℕ) (numbers : Numbers) (o : Option ℕ)
    → IsLastText group numbers o
    → is_taken group 99 numbers ≡ true
    → o ≡ some 99
last_is_99 group numbers none l t = cc (l 99, t)
last_is_99 group numbers (some m) l t =
    let top : place 99 ≤ place m = l.1 99 t in let q : m ≡ 99 = ground (arith, l.0) in ap some q

always_taken :
    (left group : ℕ) (numbers : Numbers)
    → is_taken group (generate_order_number group numbers) numbers ≡ true
    → generate_unique_order_number left group numbers ≡ err (internal no_unique_number)
unfolding generate_unique_order_number
always_taken zero group numbers t = refl
always_taken (suc left) group numbers t = rw t (always_taken left group numbers t)

after_99 :
    (group : ℕ) (numbers : Numbers)
    → last_serial group numbers ≡ some 99
    → generate_order_number group numbers ≡ 100
unfolding generate_order_number
after_99 group numbers e = rw (e, generate_order_number) refl

-- Once a group has the serials 99 and 100, and none above, no order can be added to it any more:
-- the text "99" comes after "100", so that every attempt looks for 100 and finds it taken.
pub generate_unique_order_number-hundred :
    (group : ℕ) (numbers : Numbers)
    → AreBelow 101 group numbers
    → is_taken group 99 numbers ≡ true
    → is_taken group 100 numbers ≡ true
    → generate_unique_order_number 5 group numbers ≡ err (internal no_unique_number)
generate_unique_order_number-hundred group numbers h t u =
    let last =
      last_is_99 group numbers (last_serial group numbers) (last_serial-IsLastText group numbers h)
        t in
    always_taken 5 group numbers
      (subst (λ x. is_taken group x numbers ≡ true) (sym (after_99 group numbers last)) u)
