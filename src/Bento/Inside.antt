-- ===== src/Bento/Inside.antt =====
-- Where detect_mode chooses the tier, each slot is shown in full.
use webox.Prelude.{◌≡◌, ℕ, ◌≤◌, if◌then◌else◌, arith, inl, inr, All, ◌⊎◌}
use webox.Prelude.Int.{ℤ, pos, ◌+ℤ◌, ◌-ℤ◌, leb_ℤ, ◌≤ℤ◌, +ℤ_parts, -ℤ_parts, quot, scale}
use webox.Bento.Mode.{Mode, tiny, standard, ultra, ultra_plus, detect_mode}
use webox.Bento.Layout.{
  RowBudget, Rect, Slot, compute_layout, compute_ultra_layout, compute_standard_layout, left_col,
  left_ratio, usable_budget,
}
use webox.Bento.Cover.{grid}
use webox.Bento.Budget.{Usable, usable_budget-Usable, usable_budget-fits}

-- A rectangle with something in it, below the status bar and inside the screen.
abbrev pub Inside : ℤ → ℤ → Slot × Rect → Type 0
Inside width height (slot, r) =
    (pos 0 ≤ℤ r.x)
    × (pos 1 ≤ℤ r.width)
    × (r.x +ℤ r.width ≤ℤ width)
    × (pos 1 ≤ℤ r.y)
    × (pos 1 ≤ℤ r.height)
    × (r.y +ℤ r.height ≤ℤ height)

left_col_bounds :
    (n : ℕ) → 120 ≤ n → (pos 40 ≤ℤ left_col (pos n)) × (left_col (pos n) ≤ℤ pos n -ℤ pos 46)
unfolding left_col left_ratio quot scale ◌-ℤ◌
left_col_bounds n h = ground (arith, h)

-- What detect_mode has looked at.
detect_mode-cases :
    (n m : ℕ)
    → 1 ≤ n
    → 1 ≤ m
    → (detect_mode (pos n) (pos m) ≡ tiny)
      ⊎ ((detect_mode (pos n) (pos m) ≡ standard) × (22 ≤ m))
      ⊎ ((detect_mode (pos n) (pos m) ≡ ultra) × (120 ≤ n) × (35 ≤ m))
      ⊎ ((detect_mode (pos n) (pos m) ≡ ultra_plus) × (120 ≤ n) × (35 ≤ m))
unfolding detect_mode
detect_mode-cases n m h g = ground (arith, h, g)

-- Columns and rows that fit, with every slot between them.
grid-Inside :
    (n m : ℕ) (l : ℤ) (b : RowBudget)
    → 120 ≤ n
    → (pos 40 ≤ℤ l) × (l ≤ℤ pos n -ℤ pos 46)
    → Usable b
    → pos 1 +ℤ b.top_row +ℤ b.second_row +ℤ b.logs ≤ℤ pos m
    → All (Inside (pos n) (pos m)) (grid (pos n) l b)
grid-Inside n m l b h k u f = ground (
  arith,
  h,
  k,
  u,
  f,
  -ℤ_parts (pos n) (pos 46),
  -ℤ_parts (pos n) l,
  +ℤ_parts (pos 0) l,
  +ℤ_parts (pos 0) (pos n),
  +ℤ_parts l (pos n -ℤ l),
  +ℤ_parts (pos 1) b.top_row,
  +ℤ_parts (pos 1 +ℤ b.top_row) b.second_row,
  +ℤ_parts (pos 1 +ℤ b.top_row +ℤ b.second_row) b.logs,
)

positive : (n k : ℕ) → 1 ≤ n → (if leb_ℤ (pos n) (pos 0) then pos k else pos n) ≡ pos n
positive n k h = ground (arith, h)

compute_ultra_layout-Inside :
    (n m : ℕ) (mode : Mode)
    → 120 ≤ n
    → 35 ≤ m
    → All (Inside (pos n) (pos m)) (compute_ultra_layout (pos n) (pos m) mode).slots
unfolding compute_ultra_layout
compute_ultra_layout-Inside n m mode h g =
    rw (compute_ultra_layout, positive n 120 (omega arith))
      (grid-Inside n m (left_col (pos n)) (usable_budget (pos m) mode) h (left_col_bounds n h)
        (usable_budget-Usable (pos m) mode) (usable_budget-fits m mode (omega arith)))

-- Two rows that share what the status bar leaves.
compute_standard_layout-Inside :
    (n m : ℕ)
    → 1 ≤ n
    → 22 ≤ m
    → All (Inside (pos n) (pos m)) (compute_standard_layout (pos n) (pos m)).slots
unfolding compute_standard_layout quot ◌-ℤ◌ ◌+ℤ◌
compute_standard_layout-Inside n m h g =
    rw (compute_standard_layout, positive n 100 h, positive m 30 (omega arith))
      (ground (arith, h, g))

-- On a screen of positive width and height, in the tier that DetectMode chooses for it, every slot
-- of ComputeLayout has at least one cell, and lies below the status bar and inside the screen.
pub compute_layout-Inside :
    (n m : ℕ)
    → 1 ≤ n
    → 1 ≤ m
    → All
        (Inside (pos n) (pos m))
        (compute_layout (pos n) (pos m) (detect_mode (pos n) (pos m))).slots
unfolding compute_layout
compute_layout-Inside n m h g = elim (detect_mode-cases n m h g) [
  | inl q ↦ rw q tt
  | inr (inl (q, k)) ↦ rw q (compute_standard_layout-Inside n m h k)
  | inr (inr (inl (q, k, l))) ↦ rw q (compute_ultra_layout-Inside n m ultra k l)
  | inr (inr (inr (q, k, l))) ↦ rw q (compute_ultra_layout-Inside n m ultra_plus k l)
]
