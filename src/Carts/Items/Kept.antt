-- ===== src/Carts/Items/Kept.antt =====
-- What a change of some items, and the recalculation after it, do to the totals of the carts.
use mathlib.Core.Option
use lif_low_backend.Prelude.{
  ℕ, suc, ◌≤◌, ◌≡◌, refl, sym, ◌∙◌, subst, true, false, Option, none, some, List, [], ◌∷◌, arith,
  ◌==◌, ==_iff, ==-flipped, if◌then◌else◌, All, contains, Bool-cases, inl, inr, some-injective,
}
use lif_low_backend.Schema.{
  CartItem, Db, Table, put, ok, >>=-eq-ok, ok-injective, update, update-eq-ok,
}
use lif_low_backend.Carts.{cart_total, recalculate_cart_total, set_item, find_item}
use lif_low_backend.Carts.Totals.{
  HasDistinctIds, IsValid, total-set, distinct-set, amount_elsewhere,
}
use lif_low_backend.Carts.Items.{new_item, recalculate_all}

-- The item and its cart are not above the last identifier that was handed out.
abbrev pub IsBounded : ℕ → CartItem → Type 0
IsBounded n i = (i.id ≤ n) × (i.cart_id ≤ n)

-- The identifiers of the items are distinct and no identifier is above the last that was handed
-- out, and each cart keeps the total of its active items, but for the carts `cs`.
pub record IsKept (cs : List ℕ) (db : Db) : Type 0 where
  pub distinct : HasDistinctIds db.cart_items
  pub bounded : All (IsBounded db.last_id) db.cart_items
  pub known : (c total : ℕ) → db.carts c ≡ some total → c ≤ db.last_id
  pub totals :
      (c total : ℕ)
      → contains c cs ≡ false
      → db.carts c ≡ some total
      → total ≡ cart_total c db.cart_items

pub kept-IsValid : (db : Db) → IsKept [] db → IsValid db
kept-IsValid db k = record { distinct = k.distinct; totals = λ c total. k.totals c total refl }

pub IsKept-weaker : (cs : List ℕ) (db : Db) → IsKept [] db → IsKept cs db
IsKept-weaker cs db k = record {
  distinct = k.distinct;
  bounded = k.bounded;
  known = k.known;
  totals = λ c total _. k.totals c total refl;
}

pub not_contained :
    (c d : ℕ) (cs : List ℕ) → contains c cs ≡ false → contains d cs ≡ true → (c == d) ≡ false
not_contained c d cs out inside = elim (Bool-cases (c == d)) [
  | inl e ↦
      let q : c ≡ d = (==_iff c d).0 e in cc (subst (λ x. contains x cs ≡ false) q out, inside)
  | inr e ↦ e
]

-- Some rows change, and keep the totals of the carts that are not in `cs`.
pub IsKept-items :
    (cs : List ℕ) (db : Db) (items : List CartItem)
    → IsKept cs db
    → HasDistinctIds items
    → All (IsBounded db.last_id) items
    → ((c : ℕ) → contains c cs ≡ false → cart_total c items ≡ cart_total c db.cart_items)
    → IsKept cs (record db { cart_items = items })
IsKept-items cs db items k d b same = record {
  distinct = d;
  bounded = b;
  known = k.known;
  totals = λ c total out e. k.totals c total out e ∙ sym (same c out);
}

IsBounded-set :
    (n k : ℕ) (f : CartItem → CartItem) (is : List CartItem)
    → ((i : CartItem) → (f i).id ≡ i.id)
    → ((i : CartItem) → (f i).cart_id ≡ i.cart_id)
    → All (IsBounded n) is
    → All (IsBounded n) (set_item k f is)
unfolding set_item
IsBounded-set n k f [] same_id same_cart b = tt
IsBounded-set n k f (i ∷ is) same_id same_cart b = elim (Bool-cases (i.id == k)) [
  | inl e ↦ rw e (
    (subst (λ x. x ≤ n) (sym (same_id i)) b.0.0, subst (λ x. x ≤ n) (sym (same_cart i)) b.0.1),
    b.1,
  )
  | inr e ↦ rw e (b.0, IsBounded-set n k f is same_id same_cart b.1)
]

pub IsKept-set :
    (cs : List ℕ) (db : Db) (k : ℕ) (f : CartItem → CartItem) {i : CartItem}
    → IsKept cs db
    → ((j : CartItem) → (f j).id ≡ j.id)
    → ((j : CartItem) → (f j).cart_id ≡ j.cart_id)
    → find_item k db.cart_items ≡ some i
    → contains i.cart_id cs ≡ true
    → IsKept cs (record db { cart_items = set_item k f db.cart_items })
IsKept-set cs db k f {i} kept same_id same_cart found inside =
    IsKept-items cs db (set_item k f db.cart_items) kept
      (distinct-set k f db.cart_items same_id kept.distinct)
      (IsBounded-set db.last_id k f db.cart_items same_id same_cart kept.bounded)
      (λ c out. elsewhere c (not_contained c i.cart_id cs out inside))
  where
    elsewhere :
        (c : ℕ)
        → (c == i.cart_id) ≡ false
        → cart_total c (set_item k f db.cart_items) ≡ cart_total c db.cart_items
    elsewhere c other = omega (
      arith,
      total-set c k f db.cart_items found,
      amount_elsewhere c i other,
      amount_elsewhere c (f i) (subst (λ x. (c == x) ≡ false) (sym (same_cart i)) other),
    )

-- A recalculation mends the total of its cart.
pub IsKept-recalculated :
    (c : ℕ) (cs : List ℕ) (db : Db) {db' : Db}
    → IsKept (c ∷ cs) db
    → recalculate_cart_total c db ≡ ok db'
    → IsKept cs db'
unfolding recalculate_cart_total
IsKept-recalculated c cs db {db'} kept h =
    let (carts, written, e) = >>=-eq-ok (update c (λ _. cart_total c db.cart_items) db.carts) _ h in
    let fine : IsKept cs (record db { carts = carts }) = record {
      distinct = kept.distinct;
      bounded = kept.bounded;
      known = λ d total e'. known_of carts d total (update-eq-ok c _ db.carts written d) e';
      totals =
          λ d total out e'. total_of carts d total out (update-eq-ok c _ db.carts written d) e';
    } in
    subst (IsKept cs) (ok-injective e) fine
  where
    from_map :
        (d total : ℕ)
        → d ≡ c
        → (o : Option ℕ) → Option.map (λ _. cart_total c db.cart_items) o ≡ some total
        → total ≡ cart_total d db.cart_items
    from_map d total q none e = cc
    from_map d total q (some _) e = rw q (sym (some-injective e))

    was_some :
        (d total : ℕ) (o : Option ℕ)
        → Option.map (λ _. cart_total c db.cart_items) o ≡ some total
        → (t : ℕ) × (o ≡ some t)
    was_some d total none e = cc
    was_some d total (some t) e = (t, refl)

    known_of :
        (carts : Table ℕ) (d total : ℕ)
        → carts d ≡ (
            if d == c
            then Option.map (λ _. cart_total c db.cart_items) (db.carts d)
            else db.carts d)
        → carts d ≡ some total
        → d ≤ db.last_id
    known_of carts d total q e = elim (Bool-cases (d == c)) [
      | inl same ↦
          let (t, was) = was_some d total (db.carts d) (sym (rw same at q) ∙ e) in
          kept.known d t was
      | inr other ↦ kept.known d total (sym (rw other at q) ∙ e)
    ]

    total_of :
        (carts : Table ℕ) (d total : ℕ)
        → contains d cs ≡ false
        → carts d ≡ (
            if d == c
            then Option.map (λ _. cart_total c db.cart_items) (db.carts d)
            else db.carts d)
        → carts d ≡ some total
        → total ≡ cart_total d db.cart_items
    total_of carts d total out q e = elim (Bool-cases (d == c)) [
      | inl same ↦ from_map d total ((==_iff d c).0 same) (db.carts d) (sym (rw same at q) ∙ e)
      | inr other ↦
          kept.totals d total (rw (==-flipped d c other, out) refl) (sym (rw other at q) ∙ e)
    ]

pub IsKept-recalculated_all :
    (cs : List ℕ) (db : Db) {db' : Db}
    → IsKept cs db
    → recalculate_all cs db ≡ ok db'
    → IsKept [] db'
unfolding recalculate_all
IsKept-recalculated_all [] db kept h = subst (IsKept []) (ok-injective h) kept
IsKept-recalculated_all (c ∷ cs) db kept h =
    let (db1, first, rest) = >>=-eq-ok (recalculate_cart_total c db) _ h in
    IsKept-recalculated_all cs db1 (IsKept-recalculated c cs db kept first) rest

above :
    (n : ℕ) (is : List CartItem)
    → All (IsBounded n) is
    → All (λ (i : CartItem). (i.id == suc n) ≡ false) is
above n [] b = tt
above n (i ∷ is) b = (ground (arith, b.0.0), above n is b.1)

higher : (n : ℕ) (is : List CartItem) → All (IsBounded n) is → All (IsBounded (suc n)) is
higher n [] b = tt
higher n (i ∷ is) b = ((omega (arith, b.0.0), omega (arith, b.0.1)), higher n is b.1)

none_of : (n : ℕ) (is : List CartItem) → All (IsBounded n) is → cart_total (suc n) is ≡ 0
none_of n [] b = refl
none_of n (i ∷ is) b = let rest = none_of n is b.1 in let le = b.0.1 in ground (arith, rest, le)

-- A new row of a cart whose total is still to be mended.
pub IsKept-new :
    (c : ℕ) (product_id quantity price : ℕ) (db : Db)
    → c ≤ db.last_id
    → IsKept [] db
    → IsKept (c ∷ []) (record db {
      cart_items = new_item (suc db.last_id) c product_id quantity price ∷ db.cart_items;
      last_id = suc db.last_id;
    })
IsKept-new c product_id quantity price db le kept = record {
  distinct = (above db.last_id db.cart_items kept.bounded, kept.distinct);
  bounded = ((omega arith, omega (arith, le)), higher db.last_id db.cart_items kept.bounded);
  known = λ d total e. omega (arith, kept.known d total e);
  totals = λ d total out e. kept.totals d total refl e ∙ ground (arith, out);
}

-- A new cart, without items.
pub IsKept-with_cart :
    (user : ℕ) (db : Db)
    → IsKept [] db
    → IsKept [] (record db {
      carts = put (suc db.last_id) 0 db.carts;
      cart_of = put user (suc db.last_id) db.cart_of;
      last_id = suc db.last_id;
    })
IsKept-with_cart user db kept = record {
  distinct = kept.distinct;
  bounded = higher db.last_id db.cart_items kept.bounded;
  known = λ c total e. elim (Bool-cases (c == suc db.last_id)) [
    | inl same ↦ let q : c ≡ suc db.last_id = (==_iff _ _).0 same in omega (arith, q)
    | inr other ↦ let le = kept.known c total (rw other at e) in omega (arith, le)
  ];
  totals = λ c total out e. elim (Bool-cases (c == suc db.last_id)) [
    | inl same ↦
        let q : c ≡ suc db.last_id = (==_iff _ _).0 same in
        let zero : 0 ≡ total = some-injective (rw same at e) in
        sym zero ∙ sym (rw q (none_of db.last_id db.cart_items kept.bounded))
    | inr other ↦ kept.totals c total refl (rw other at e)
  ];
}
