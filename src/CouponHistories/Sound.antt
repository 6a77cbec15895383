-- ===== src/CouponHistories/Sound.antt =====
-- What every operation on the table of histories respects: new identifiers are new, and a history
-- that was used or cancelled stays as it is. Only the nightly work deletes such a history, after its
-- last day.
pub mod Calls
pub mod Scheduled
use lif_low_backend.Prelude.{
  ℕ, suc, ◌≤◌, ◌≡◌, ◌≢◌, refl, sym, ap, ◌∙◌, subst, Bool, true, false, not, ◌&&◌, ◌||◌, none, some,
  List, [], ◌∷◌, arith, ◌==◌, find, filter, All, Listed, Listed-All, Bool-cases, Option-cases, inl,
  inr, ◌⊎◌, ==_iff, some-injective,
}
use lif_low_backend.Schema.{CouponHistory, is_issued, is_used, is_cancelled}
use lif_low_backend.Coupons.{
  Histories, is_issued_to, oldest_issued, set_history, Use, used_history, use_history, mark_used,
  lower_quantity,
}
use lif_low_backend.Coupons.Used.{IsDistinct, oldest_issued-Listed}
use lif_low_backend.CouponHistories.{
  Issue, issued_history, create_many, create_with_quantity, update_where,
}

-- The history was used or cancelled.
abbrev pub is_closed : CouponHistory → Bool
is_closed h = is_used h.status || is_cancelled h.status

-- The identifiers are distinct, and none is above the last that was handed out.
abbrev pub IsFresh : Histories → Type 0
IsFresh s = IsDistinct s.0 × All (λ h. h.id ≤ s.1) s.0

-- Closed histories stay.
abbrev pub Keeps : List CouponHistory → List CouponHistory → Type 0
Keeps hs hs' = (h : CouponHistory) → Listed h hs → is_closed h ≡ true → Listed h hs'

abbrev pub Sound : Histories → Histories → Type 0
Sound s s' = IsFresh s → IsFresh s' × Keeps s.0 s'.0

pub Sound-refl : (s : Histories) → Sound s s
Sound-refl s f = (f, λ h l c. l)

pub Sound-trans : (s t u : Histories) → Sound s t → Sound t u → Sound s u
Sound-trans s t u a b f =
    let (g, kept) = a f in let (g', kept') = b g in (g', λ h l c. kept' h (kept h l c) c)

All-map :
    {P Q : CouponHistory → Type 0} (hs : List CouponHistory)
    → ((h : CouponHistory) → P h → Q h)
    → All P hs
    → All Q hs
All-map [] f a = tt
All-map (h ∷ hs) f a = (f h a.0, All-map hs f a.1)

-- A row with the next identifier.
pub Sound-new :
    (h : CouponHistory) (hs : List CouponHistory) (last : ℕ)
    → h.id ≡ suc last
    → Sound (hs, last) (h ∷ hs, suc last)
Sound-new h hs last e f = (
  (
    (All-map hs (λ g le q. omega (arith, le, q, e)) f.1, f.0),
    (omega (arith, e), All-map hs (λ g le. omega (arith, le)) f.1),
  ),
  λ g l c. inr l,
)

pub Sound-create_many :
    (k : ℕ) (i : Issue) (us : List ℕ) (s : Histories) → Sound s (create_many k i us s)
unfolding create_many
Sound-create_many k i [] s = Sound-refl s
Sound-create_many k i (u ∷ us) (hs, last) =
    let h = issued_history (suc last) k u i in
    Sound-trans (hs, last) (h ∷ hs, suc last) (create_many k i us (h ∷ hs, suc last))
      (Sound-new h hs last refl) (Sound-create_many k i us (h ∷ hs, suc last))

pub Sound-create_with_quantity :
    (k u : ℕ) (i : Issue) (s : Histories) → Sound s (create_with_quantity k u i s)
unfolding create_with_quantity
Sound-create_with_quantity k u i (hs, last) = Sound-new _ hs last refl

-- Rows that keep their identifiers, one by one.
pub data Changed : List CouponHistory → List CouponHistory → Type 0 where
  no_row : Changed [] []
  row :
      {h h' : CouponHistory} {hs hs' : List CouponHistory}
      → h'.id ≡ h.id
      → (is_closed h ≡ true → h' ≡ h)
      → Changed hs hs'
      → Changed (h ∷ hs) (h' ∷ hs')

All-Changed :
    (P : ℕ → Type 0) {hs hs' : List CouponHistory}
    → Changed hs hs'
    → All (λ h. P h.id) hs
    → All (λ h. P h.id) hs'
All-Changed P no_row a = tt
All-Changed P (row e _ rest) a = (subst P (sym e) a.0, All-Changed P rest a.1)

IsDistinct-Changed : {hs hs' : List CouponHistory} → Changed hs hs' → IsDistinct hs → IsDistinct hs'
IsDistinct-Changed no_row d = tt
IsDistinct-Changed (row {h} {h'} {hs} {hs'} e _ rest) d = (
  subst (λ i. All (λ g. g.id ≢ i) hs') (sym e) (All-Changed (λ i. i ≢ h.id) rest d.0),
  IsDistinct-Changed rest d.1,
)

Listed-Changed :
    {hs hs' : List CouponHistory}
    → Changed hs hs'
    → (g : CouponHistory) → Listed g hs
    → is_closed g ≡ true
    → Listed g hs'
Listed-Changed no_row g l c = l
Listed-Changed (row e same rest) g (inl q) c =
    inl (q ∙ sym (same (subst (λ x. is_closed x ≡ true) q c)))
Listed-Changed (row e same rest) g (inr l) c = inr (Listed-Changed rest g l c)

pub Sound-Changed :
    {hs hs' : List CouponHistory} (last : ℕ) → Changed hs hs' → Sound (hs, last) (hs', last)
Sound-Changed last c f = (
  (IsDistinct-Changed c f.0, All-Changed (λ i. i ≤ last) c f.1),
  λ g l closed. Listed-Changed c g l closed,
)

Changed-refl : (hs : List CouponHistory) → Changed hs hs
Changed-refl [] = no_row
Changed-refl (h ∷ hs) = row refl (λ _. refl) (Changed-refl hs)

pub Changed-update_where :
    (p : CouponHistory → Bool) (f : CouponHistory → CouponHistory)
    → ((h : CouponHistory) → (f h).id ≡ h.id)
    → ((h : CouponHistory) → p h ≡ true → is_closed h ≡ false)
    → (hs : List CouponHistory) → Changed hs (update_where p f hs)
unfolding update_where
Changed-update_where p f keeps unused [] = no_row
Changed-update_where p f keeps unused (h ∷ hs) =
    let rest = Changed-update_where p f keeps unused hs in
    elim (Bool-cases (p h)) [
      | inl e ↦ row (rw e (keeps h)) (λ c. cc (unused h e, c)) rest
      | inr e ↦ row (rw e refl) (λ c. rw e refl) rest
    ]

-- The first row of an identifier, if it is not closed.
pub Changed-set_history :
    (id : ℕ) (f : CouponHistory → CouponHistory) (hs : List CouponHistory) {h : CouponHistory}
    → ((g : CouponHistory) → (f g).id ≡ g.id)
    → find (λ (g : CouponHistory). g.id == id) hs ≡ some h
    → is_closed h ≡ false
    → Changed hs (set_history id f hs)
unfolding set_history
Changed-set_history id f [] keeps e unused = no_row
Changed-set_history id f (g ∷ hs) {h} keeps e unused = elim (Bool-cases (g.id == id)) [
  | inl same ↦
      let q : g ≡ h = some-injective (rw same at e) in
      rw same (row (keeps g) (λ c. cc (q, c, unused)) (Changed-refl hs))
  | inr other ↦
      rw other (row refl (λ _. refl) (Changed-set_history id f hs keeps (rw other at e) unused))
]

pub find-Listed :
    (hs : List CouponHistory) (h : CouponHistory)
    → IsDistinct hs
    → Listed h hs
    → find (λ (g : CouponHistory). g.id == h.id) hs ≡ some h
find-Listed [] h d l = elim l [ ]
find-Listed (x ∷ hs) h d (inl q) = rw (q, (==_iff x.id x.id).1 refl) refl
find-Listed (x ∷ hs) h d (inr l) = elim (Bool-cases (x.id == h.id)) [
  | inl same ↦ absurd (Listed-All h (λ g. g.id ≢ x.id) hs l d.0 (sym ((==_iff x.id h.id).0 same)))
  | inr other ↦ rw other (find-Listed hs h d.1 l)
]

-- A row that passes the test is there after a filter.
pub Listed-filter :
    (p : CouponHistory → Bool) (h : CouponHistory) (hs : List CouponHistory)
    → p h ≡ true
    → Listed h hs
    → Listed h (filter p hs)
Listed-filter p h [] e l = elim l [ ]
Listed-filter p h (x ∷ hs) e (inl q) = rw (subst (λ y. p y ≡ true) q e) (inl q)
Listed-filter p h (x ∷ hs) e (inr l) = elim (Bool-cases (p x)) [
  | inl f ↦ rw f (inr (Listed-filter p h hs e l))
  | inr f ↦ rw f (Listed-filter p h hs e l)
]

All-filter :
    (P : CouponHistory → Type 0) (p : CouponHistory → Bool) (hs : List CouponHistory)
    → All P hs
    → All P (filter p hs)
All-filter P p [] a = tt
All-filter P p (h ∷ hs) a = elim (Bool-cases (p h)) [
  | inl e ↦ rw e (a.0, All-filter P p hs a.1)
  | inr e ↦ rw e (All-filter P p hs a.1)
]

IsDistinct-filter :
    (p : CouponHistory → Bool) (hs : List CouponHistory) → IsDistinct hs → IsDistinct (filter p hs)
IsDistinct-filter p [] d = tt
IsDistinct-filter p (h ∷ hs) d = elim (Bool-cases (p h)) [
  | inl e ↦ rw e (All-filter (λ g. g.id ≢ h.id) p hs d.0, IsDistinct-filter p hs d.1)
  | inr e ↦ rw e (IsDistinct-filter p hs d.1)
]

pub IsFresh-filter :
    (p : CouponHistory → Bool) (hs : List CouponHistory) (last : ℕ)
    → IsFresh (hs, last)
    → IsFresh (filter p hs, last)
IsFresh-filter p hs last f = (IsDistinct-filter p hs f.0, All-filter (λ h. h.id ≤ last) p hs f.1)

-- Rows that are deleted, if none of them is closed.
pub Sound-filter :
    (p : CouponHistory → Bool)
    → ((h : CouponHistory) → is_closed h ≡ true → p h ≡ true)
    → (hs : List CouponHistory) (last : ℕ) → Sound (hs, last) (filter p hs, last)
Sound-filter p stays hs last f =
    (IsFresh-filter p hs last f, λ h l c. Listed-filter p h hs (stays h c) l)
