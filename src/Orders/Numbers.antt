-- ===== src/Orders/Numbers.antt =====
-- The serial numbers of the orders of a group: `generateOrderNumber` and
-- `generateUniqueOrderNumber` in src/modules/order/order.service.ts, and `getLastOrderNumber` of
-- repositories/order.repository.ts. An order number is the number of its group with a serial; the
-- serial is compared as the text that it is stored as.
use lif_low_backend.Prelude.{
  ℕ, suc, zero, ◌/◌, ◌%◌, Bool, true, false, ◌&&◌, Option, none, some, List, [], ◌∷◌, ◌++◌, ltb,
  ◌==◌, if◌then◌else◌, any,
}
use lif_low_backend.Schema.{Result, ok, err, internal, no_unique_number}

-- The order numbers that are taken: the group and the serial.
abbrev pub Numbers : Type 0
Numbers = List (ℕ × ℕ)

-- The decimal digits, the first one first; the fuel bounds their number.
unfoldable pub digits : ℕ → ℕ → List ℕ
digits zero n = []
digits (suc fuel) n =
    let rest = digits fuel (n / 10) ++ (n % 10) ∷ [] in if ltb n 10 then n ∷ [] else rest

-- `padStart(2, '0')`
unfoldable pub serial_text : ℕ → List ℕ
unfolding digits
serial_text n = if ltb n 10 then 0 ∷ n ∷ [] else digits n n

-- The order of texts.
unfoldable pub text_before : List ℕ → List ℕ → Bool
text_before [] [] = false
text_before [] (_ ∷ _) = true
text_before (_ ∷ _) [] = false
text_before (a ∷ as_) (b ∷ bs) = let rest = text_before as_ bs in if a == b then rest else ltb a b

abbrev pub later_serial : ℕ → Option ℕ → ℕ
later_serial n none = n
later_serial n (some m) = if text_before (serial_text n) (serial_text m) then m else n

-- `orderBy: { orderNumber: 'desc' }`, of the group.
unfoldable pub last_serial : ℕ → Numbers → Option ℕ
last_serial group [] = none
last_serial group ((g, n) ∷ numbers) =
    if g == group
    then some (later_serial n (last_serial group numbers))
    else last_serial group numbers

unfoldable pub generate_order_number : ℕ → Numbers → ℕ
generate_order_number group numbers = elim (last_serial group numbers) [ none ↦ 1 | some n ↦ suc n ]

abbrev pub is_taken : ℕ → ℕ → Numbers → Bool
is_taken group serial = any λ (x : ℕ × ℕ). x.0 == group && x.1 == serial

-- Every attempt reads the same rows, as long as no other request adds orders to the group.
unfoldable pub generate_unique_order_number : ℕ → ℕ → Numbers → Result ℕ
generate_unique_order_number zero group numbers = err (internal no_unique_number)
generate_unique_order_number (suc left) group numbers =
    let serial = generate_order_number group numbers in
    let later = generate_unique_order_number left group numbers in
    if is_taken group serial numbers then later else ok serial
