-- ===== src/Bento/Cover.antt =====
-- Each cell of a layout of tui/bento/layout.go lies in one slot at most, and on the screen in one.
use webox.Prelude.{
  ◌≡◌, refl, sym, ◌∙◌, ◌+◌, ◌≤◌, true, ◌&&◌, List, [], ◌∷◌, some, if◌then◌else◌, arith,
}
use webox.Prelude.Int.{ℤ, pos, ◌+ℤ◌, ◌-ℤ◌, leb_ℤ, ltb_ℤ, ◌≤ℤ◌, +ℤ_parts}
use mathlib.Core.List.{Permᴰ}
use webox.Bento.Mode.{Mode, tiny, standard, ultra, ultra_plus}
use webox.Bento.Layout.{
  Rect, Slot, projects, overview, topology, cicd, logs, find_slot, LayoutMap, slot_at, RowBudget,
  compute_layout, compute_ultra_layout, compute_standard_layout, usable_budget,
  default_standard_height,
}
use webox.Bento.Partition.{
  within, bit, hits, contains-within, above, find_slot-Permᴰ, find_slot-Holds, Holds, grid_bits,
  grid_rows, columns-apart, columns_cover, rows-apart, rows_cover,
}
use webox.Bento.Budget.{Usable, usable_budget-Usable, halves}

-- The five slots of an ultra layout.
abbrev pub grid : ℤ → ℤ → RowBudget → List (Slot × Rect)
grid width left b =
    (projects, record { x = pos 0; y = pos 1; width = left; height = b.top_row })
    ∷ (overview, record { x = left; y = pos 1; width = width -ℤ left; height = b.top_row })
    ∷ (topology, record { x = pos 0; y = pos 1 +ℤ b.top_row; width = left; height = b.second_row })
    ∷ (
      cicd,
      record { x = left; y = pos 1 +ℤ b.top_row; width = width -ℤ left; height = b.second_row },
    )
    ∷ (
      logs,
      record { x = pos 0; y = pos 1 +ℤ b.top_row +ℤ b.second_row; width = width; height = b.logs },
    )
    ∷ []

grid-hits :
    (w l : ℤ) (b : RowBudget) (x y : ℤ)
    → hits (grid w l b) x y
      ≡ bit (within (pos 0) l x && within (pos 1) b.top_row y)
        + (bit (within l (w -ℤ l) x && within (pos 1) b.top_row y)
            + (bit (within (pos 0) l x && within (pos 1 +ℤ b.top_row) b.second_row y)
                + (bit (within l (w -ℤ l) x && within (pos 1 +ℤ b.top_row) b.second_row y)
                    + (bit (
                          within (pos 0) w x
                          && within (pos 1 +ℤ b.top_row +ℤ b.second_row) b.logs y)
                        + 0))))
unfolding hits
grid-hits w l b x y =
    rw
      (
        contains-within _ x y,
        contains-within _ x y,
        contains-within _ x y,
        contains-within _ x y,
        contains-within _ x y,
      )
      refl

grid-apart : (w l : ℤ) (b : RowBudget) (x y : ℤ) → Usable b → hits (grid w l b) x y ≤ 1
grid-apart w l b x y h = rw (grid-hits w l b x y) (
    grid_bits (within (pos 0) l x) (within l (w -ℤ l) x) (within (pos 1) b.top_row y)
      (within (pos 1 +ℤ b.top_row) b.second_row y)
      (within (pos 1 +ℤ b.top_row +ℤ b.second_row) b.logs y) (within (pos 0) w x)
      (columns-apart w l x)
      (rows-apart (pos 1) b.top_row (pos 1 +ℤ b.top_row) b.second_row y (ground arith))
      (rows-apart (pos 1) b.top_row (pos 1 +ℤ b.top_row +ℤ b.second_row) b.logs y
        (ground (arith, h, +ℤ_parts (pos 1 +ℤ b.top_row) b.second_row)))
      (rows-apart (pos 1 +ℤ b.top_row) b.second_row (pos 1 +ℤ b.top_row +ℤ b.second_row) b.logs y
        (ground arith)))

-- The rows of the slots of an ultra layout.
grid-above :
    (w l : ℤ) (b : RowBudget) (y : ℤ)
    → Usable b
    → above (grid w l b) y ≡ true
    → ltb_ℤ y (pos 1 +ℤ b.top_row +ℤ b.second_row +ℤ b.logs) ≡ true
unfolding above
grid-above w l b y h a = ground (
  arith,
  h,
  a,
  +ℤ_parts (pos 1 +ℤ b.top_row) b.second_row,
  +ℤ_parts (pos 1 +ℤ b.top_row +ℤ b.second_row) b.logs,
)

grid-cover :
    (w l : ℤ) (b : RowBudget) (x y : ℤ)
    → Usable b
    → within (pos 0) w x ≡ true
    → pos 1 ≤ℤ y
    → above (grid w l b) y ≡ true
    → hits (grid w l b) x y ≡ 1
grid-cover w l b x y h inside low a =
    grid-hits w l b x y
    ∙ grid_rows (within (pos 0) l x) (within l (w -ℤ l) x) (within (pos 1) b.top_row y)
        (within (pos 1 +ℤ b.top_row) b.second_row y)
        (within (pos 1 +ℤ b.top_row +ℤ b.second_row) b.logs y) (within (pos 0) w x)
        (columns_cover w l x inside) inside
    ∙ rows_cover b.top_row b.second_row b.logs y h.0 h.1 h.2
    ∙ ground (arith, low, grid-above w l b y h a)

-- The two slots of a standard layout.
abbrev pair : ℤ → ℤ → ℤ → List (Slot × Rect)
pair width first second =
    (projects, record { x = pos 0; y = pos 1; width = width; height = first })
    ∷ (overview, record { x = pos 0; y = pos 1 +ℤ first; width = width; height = second })
    ∷ []

pair-hits :
    (w p o x y : ℤ)
    → hits (pair w p o) x y
      ≡ bit (within (pos 0) w x && within (pos 1) p y)
        + (bit (within (pos 0) w x && within (pos 1 +ℤ p) o y) + 0)
unfolding hits
pair-hits w p o x y = rw (contains-within _ x y, contains-within _ x y) refl

pair-apart : (w p o x y : ℤ) → hits (pair w p o) x y ≤ 1
pair-apart w p o x y =
    rw (pair-hits w p o x y) (ground (arith, rows-apart (pos 1) p (pos 1 +ℤ p) o y (ground arith)))

pair-cover :
    (w p o x y : ℤ)
    → within (pos 0) w x ≡ true
    → pos 1 ≤ℤ p
    → pos 1 ≤ℤ o
    → pos 1 ≤ℤ y
    → above (pair w p o) y ≡ true
    → hits (pair w p o) x y ≡ 1
unfolding above
pair-cover w p o x y inside a b low c =
    pair-hits w p o x y
    ∙ rw inside (ground (arith, a, b, low, c, +ℤ_parts (pos 1) p, +ℤ_parts (pos 1 +ℤ p) o))

-- The height that a standard layout works with.
abbrev height_of : ℤ → ℤ
height_of height = if leb_ℤ height (pos 0) then default_standard_height else height

pub hits-compute_layout :
    (width height : ℤ) (mode : Mode) (x y : ℤ)
    → hits (compute_layout width height mode).slots x y ≤ 1
unfolding compute_layout compute_ultra_layout compute_standard_layout hits
hits-compute_layout width height tiny x y = ground arith
hits-compute_layout width height standard x y = pair-apart _ _ _ x y
hits-compute_layout width height ultra x y =
    grid-apart _ _ (usable_budget height ultra) x y (usable_budget-Usable height ultra)
hits-compute_layout width height ultra_plus x y =
    grid-apart _ _ (usable_budget height ultra_plus) x y (usable_budget-Usable height ultra_plus)

-- The cells of a layout's width, from below the status bar to the lowest edge of a slot.
abbrev pub OnGrid : LayoutMap → ℤ → ℤ → Type 0
OnGrid m x y =
    (within (pos 0) m.status_bar.width x ≡ true) × (pos 1 ≤ℤ y) × (above m.slots y ≡ true)

hits-OnGrid :
    (width height : ℤ) (mode : Mode) (x y : ℤ)
    → OnGrid (compute_layout width height mode) x y
    → hits (compute_layout width height mode).slots x y ≡ 1
unfolding compute_layout compute_ultra_layout compute_standard_layout above
hits-OnGrid width height tiny x y h = absurd (cc (h.2))
hits-OnGrid width height standard x y h =
    pair-cover _ _ _ x y h.0 (halves (height_of height -ℤ pos 1)).0
      (halves (height_of height -ℤ pos 1)).1 h.1 h.2
hits-OnGrid width height ultra x y h =
    grid-cover _ _ (usable_budget height ultra) x y (usable_budget-Usable height ultra) h.0 h.1 h.2
hits-OnGrid width height ultra_plus x y h =
    grid-cover _ _ (usable_budget height ultra_plus) x y (usable_budget-Usable height ultra_plus)
      h.0 h.1 h.2

-- In whichever order a range over the map of slots runs, SlotAt answers for a cell what it answers
-- in the order of the source, since no cell lies in two slots of a computed layout.
pub slot_at-compute_layout :
    (width height : ℤ) (mode : Mode) (ranged : List (Slot × Rect)) (x y : ℤ)
    → Permᴰ (compute_layout width height mode).slots ranged
    → (find_slot ranged x y ≡ slot_at (compute_layout width height mode) x y)
      × (hits (compute_layout width height mode).slots x y ≤ 1)
unfolding slot_at
slot_at-compute_layout width height mode ranged x y p = (
  sym (find_slot-Permᴰ x y p (hits-compute_layout width height mode x y)),
  hits-compute_layout width height mode x y,
)

-- Take a computed layout and a cell within the width of its status bar, below the bar and above the
-- lowest edge of a slot. The cell lies in exactly one slot's rectangle, and the slot that SlotAt
-- finds is the one whose rectangle holds the cell.
pub compute_layout-cover :
    (width height : ℤ) (mode : Mode) (x y : ℤ)
    → OnGrid (compute_layout width height mode) x y
    → (hits (compute_layout width height mode).slots x y ≡ 1)
      × (s : Slot) × (slot_at (compute_layout width height mode) x y ≡ some s)
      × Holds s x y (compute_layout width height mode).slots
unfolding slot_at
compute_layout-cover width height mode x y h =
    let one = hits-OnGrid width height mode x y h in
    let found =
      find_slot-Holds (compute_layout width height mode).slots x y (ground (arith, one)) in
    (one, found.0, found.1, found.2)
