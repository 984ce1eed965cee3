-- ===== src/Bento/Partition.antt =====
-- Which slots of a layout a cell of the screen lies in.
use webox.Prelude.{
  ◌⊎◌, ◌≡◌, refl, sym, ◌∙◌, ℕ, ◌+◌, ◌≤◌, Bool, true, false, ◌&&◌, ◌||◌, List, [], ◌∷◌, none, some,
  arith, Bool-cases, inl, inr,
}
use webox.Prelude.Int.{ℤ, pos, ◌+ℤ◌, ◌-ℤ◌, leb_ℤ, ltb_ℤ, ◌≤ℤ◌, +ℤ_parts, -ℤ_parts}
use mathlib.Core.List.{Permᴰ}
use webox.Bento.Layout.{Rect, empty, contains, Slot, find_slot}

-- A half-open interval, by where it begins and how long it is.
abbrev pub within : ℤ → ℤ → ℤ → Bool
within low size c = leb_ℤ low c && ltb_ℤ c (low +ℤ size)

abbrev pub bit : Bool → ℕ
bit true = 1
bit false = 0

-- The number of slots that a cell lies in.
unfoldable pub hits : List (Slot × Rect) → ℤ → ℤ → ℕ
hits [] x y = 0
hits ((slot, rect) ∷ rest) x y = bit (contains rect x y) + hits rest x y

pub contains-within :
    (r : Rect) (x y : ℤ) → contains r x y ≡ (within r.x r.width x && within r.y r.height y)
unfolding contains empty
contains-within r x y = ground (arith, +ℤ_parts r.x r.width, +ℤ_parts r.y r.height)

-- A row above the lower edge of some slot.
unfoldable pub above : List (Slot × Rect) → ℤ → Bool
above [] y = false
above ((slot, rect) ∷ rest) y = ltb_ℤ y (rect.y +ℤ rect.height) || above rest y

pub hits-Permᴰ : {m m' : List (Slot × Rect)} (x y : ℤ) → Permᴰ m m' → hits m x y ≡ hits m' x y
unfolding hits
hits-Permᴰ x y Permᴰ.nil = refl
hits-Permᴰ x y (Permᴰ.cons e d) = rw (e, hits-Permᴰ x y d) refl
hits-Permᴰ x y (Permᴰ.swap {a} {b} {l = l} e f) = rw (sym e, sym f) (ground arith)
hits-Permᴰ x y (Permᴰ.trans d d') = hits-Permᴰ x y d ∙ hits-Permᴰ x y d'

-- Nothing is found where nothing is hit.
pub find_slot-none : (m : List (Slot × Rect)) (x y : ℤ) → hits m x y ≡ 0 → find_slot m x y ≡ none
unfolding hits find_slot
find_slot-none [] x y h = refl
find_slot-none ((s, r) ∷ m) x y h = ground (arith, find_slot-none m x y)

-- Where no two slots overlap, the order of the slots makes no difference.
pub find_slot-Permᴰ :
    {m m' : List (Slot × Rect)} (x y : ℤ)
    → Permᴰ m m'
    → hits m x y ≤ 1
    → find_slot m x y ≡ find_slot m' x y
unfolding find_slot hits
find_slot-Permᴰ x y Permᴰ.nil h = refl
find_slot-Permᴰ x y (Permᴰ.cons {b = b} {l₁ = m} e d) h =
    let rest : find_slot m x y ≡ _ = find_slot-Permᴰ x y d (ground (arith, h)) in rw (e, rest) refl
find_slot-Permᴰ x y (Permᴰ.swap e f) h = rw (sym e, sym f) (ground (arith, h))
find_slot-Permᴰ x y (Permᴰ.trans d d') h =
    find_slot-Permᴰ x y d h ∙ find_slot-Permᴰ x y d' (rw (sym (hits-Permᴰ x y d)) h)

-- The slot has a rectangle in the list that holds the cell.
abbrev pub Holds : Slot → ℤ → ℤ → List (Slot × Rect) → Type 0
Holds s x y [] = ⊥
Holds s x y ((t, r) ∷ m) = ((t ≡ s) × (contains r x y ≡ true)) ⊎ Holds s x y m

-- Where a slot is hit, one that holds the cell is found.
pub find_slot-Holds :
    (m : List (Slot × Rect)) (x y : ℤ)
    → 1 ≤ hits m x y
    → (s : Slot) × (find_slot m x y ≡ some s) × Holds s x y m
unfolding hits find_slot
find_slot-Holds [] x y h = absurd (ground (arith, h))
find_slot-Holds ((s, r) ∷ m) x y h = elim (Bool-cases (contains r x y)) [
  | inl q ↦ rw (find_slot, q) (s, refl, inl (refl, refl))
  | inr q ↦
      let rest = find_slot-Holds m x y (ground (arith, h, q)) in
      rw (find_slot, q) (rest.0, rest.1, inr rest.2)
]

-- Five slots in two columns and three rows.
pub grid_bits :
    (c d r s t f : Bool)
    → (c && d) ≡ false
    → (r && s) ≡ false
    → (r && t) ≡ false
    → (s && t) ≡ false
    → bit (c && r) + (bit (d && r) + (bit (c && s) + (bit (d && s) + (bit (f && t) + 0)))) ≤ 1
grid_bits c d r s t f a b g h = ground (arith, a, b, g, h)

-- The two columns of a screen.
pub columns-apart : (w l x : ℤ) → (within (pos 0) l x && within l (w -ℤ l) x) ≡ false
columns-apart w l x = ground (arith, +ℤ_parts (pos 0) l)

pub columns_cover :
    (w l x : ℤ)
    → within (pos 0) w x ≡ true
    → bit (within (pos 0) l x) + bit (within l (w -ℤ l) x) ≡ 1
columns_cover w l x h =
    ground (arith, h, +ℤ_parts (pos 0) l, +ℤ_parts (pos 0) w, +ℤ_parts l (w -ℤ l), -ℤ_parts w l)

-- Intervals of which one begins where the other ends, or later.
pub rows-apart : (a t b s y : ℤ) → a +ℤ t ≤ℤ b → (within a t y && within b s y) ≡ false
rows-apart a t b s y h = ground (arith, h)

-- Rows one below the other, taken together.
pub rows_cover :
    (t s g y : ℤ)
    → pos 6 ≤ℤ t
    → pos 6 ≤ℤ s
    → pos 7 ≤ℤ g
    → bit (within (pos 1) t y)
        + (bit (within (pos 1 +ℤ t) s y) + bit (within (pos 1 +ℤ t +ℤ s) g y))
      ≡ bit (leb_ℤ (pos 1) y && ltb_ℤ y (pos 1 +ℤ t +ℤ s +ℤ g))
rows_cover t s g y a b c =
    ground
      (arith, a, b, c, +ℤ_parts (pos 1) t, +ℤ_parts (pos 1 +ℤ t) s, +ℤ_parts (pos 1 +ℤ t +ℤ s) g)

-- Where a cell lies in one of two columns and in the full width, only the rows count.
pub grid_rows :
    (c d r s t f : Bool)
    → bit c + bit d ≡ 1
    → f ≡ true
    → bit (c && r) + (bit (d && r) + (bit (c && s) + (bit (d && s) + (bit (f && t) + 0))))
      ≡ bit r + (bit s + bit t)
grid_rows c d r s t f h e = ground (arith, h, e)
