-- ===== src/Bento/Layout.antt =====
-- tui/bento/layout.go, with planRowBudgets of tui/bento/engine.go: where each slot lies.
use webox.Prelude.{ℕ, Bool, false, ◌&&◌, ◌||◌, List, [], ◌∷◌, Option, none, some, if◌then◌else◌}
use webox.Prelude.Int.{ℤ, pos, ◌+ℤ◌, ◌-ℤ◌, scale, quot, leb_ℤ, ltb_ℤ}
use webox.Bento.Mode.{Mode, tiny, standard, ultra, ultra_plus, ultra_min_width}

pub record Rect : Type 0 where
  pub x : ℤ
  pub y : ℤ
  pub width : ℤ
  pub height : ℤ

-- Rect.Empty and Rect.Contains
unfoldable pub empty : Rect → Bool
empty r = leb_ℤ r.width (pos 0) || leb_ℤ r.height (pos 0)

unfoldable pub contains : Rect → ℤ → ℤ → Bool
unfolding empty
contains r x y =
    if empty r
    then false
    else leb_ℤ r.x x && ltb_ℤ x (r.x +ℤ r.width) && leb_ℤ r.y y && ltb_ℤ y (r.y +ℤ r.height)

pub data Slot : Type 0 where
  projects overview metrics cicd logs topology : Slot

-- The map of slots, in the order in which a range over it runs this time.
pub record LayoutMap : Type 0 where
  pub status_bar : Rect
  pub slots : List (Slot × Rect)

unfoldable pub find_slot : List (Slot × Rect) → ℤ → ℤ → Option Slot
find_slot [] x y = none
find_slot ((slot, rect) ∷ rest) x y = if contains rect x y then some slot else find_slot rest x y

-- LayoutMap.SlotAt: none where its boolean is false.
unfoldable pub slot_at : LayoutMap → ℤ → ℤ → Option Slot
unfolding find_slot
slot_at m x y = find_slot m.slots x y

pub record RowBudget : Type 0 where
  pub top_row : ℤ
  pub second_row : ℤ
  pub logs : ℤ

abbrev bento_status_bar_lines : ℤ
bento_status_bar_lines = pos 1

abbrev bento_logs_target_ultra : ℤ
bento_logs_target_ultra = pos 10

abbrev bento_logs_target_ultra_plus : ℤ
bento_logs_target_ultra_plus = pos 14

abbrev pub bento_logs_min_lines : ℤ
bento_logs_min_lines = pos 7

abbrev pub bento_min_row_lines : ℤ
bento_min_row_lines = pos 6

abbrev bento_grid_rows : ℕ
bento_grid_rows = 2

-- The least that both rows of the grid take.
abbrev grid_min : ℤ
grid_min = pos 12

abbrev logs_target : Mode → ℤ
logs_target ultra_plus = bento_logs_target_ultra_plus
logs_target tiny = bento_logs_target_ultra
logs_target standard = bento_logs_target_ultra
logs_target ultra = bento_logs_target_ultra

abbrev pub at_least : ℤ → ℤ → ℤ
at_least low n = if ltb_ℤ n low then low else n

unfoldable pub plan_row_budgets : ℤ → Mode → RowBudget
plan_row_budgets height mode =
    let target = logs_target mode in
    let short = ltb_ℤ (height -ℤ bento_status_bar_lines -ℤ target) grid_min in
    let logs =
      if short
      then at_least bento_logs_min_lines (height -ℤ bento_status_bar_lines -ℤ grid_min)
      else target in
    let available = if short then grid_min else height -ℤ bento_status_bar_lines -ℤ target in
    let per_row = at_least bento_min_row_lines (quot available bento_grid_rows) in
    if leb_ℤ height (pos 0)
    then record { top_row = pos 0; second_row = pos 0; logs = pos 0 }
    else record { top_row = per_row; second_row = per_row; logs = logs }

abbrev ultra_left_min_width : ℤ
ultra_left_min_width = pos 40

abbrev ultra_right_min_width : ℤ
ultra_right_min_width = pos 46

-- The percentage of the left column.
unfoldable pub left_ratio : ℤ → ℕ
left_ratio width = if leb_ℤ (pos 160) width then 38 else if leb_ℤ (pos 136) width then 42 else 46

unfoldable pub left_col : ℤ → ℤ
unfolding left_ratio
left_col width =
    let col = at_least ultra_left_min_width (quot (scale width (left_ratio width)) 100) in
    let max_left = width -ℤ ultra_right_min_width in if ltb_ℤ max_left col then max_left else col

abbrev is_zero : ℤ → Bool
is_zero n = leb_ℤ n (pos 0) && leb_ℤ (pos 0) n

-- The budgets, or a coarse split where none were planned.
unfoldable pub usable_budget : ℤ → Mode → RowBudget
unfolding plan_row_budgets
usable_budget height mode =
    let b = plan_row_budgets height mode in
    if is_zero b.top_row || is_zero b.second_row || is_zero b.logs
    then record {
      top_row = bento_min_row_lines;
      second_row = bento_min_row_lines;
      logs = bento_logs_min_lines;
    }
    else b

unfoldable pub compute_ultra_layout : ℤ → ℤ → Mode → LayoutMap
unfolding left_col usable_budget
compute_ultra_layout given height mode =
    let width = if leb_ℤ given (pos 0) then ultra_min_width else given in
    let left = left_col width in
    let right = width -ℤ left in
    let b = usable_budget height mode in
    let second_y = pos 1 +ℤ b.top_row in
    let logs_y = second_y +ℤ b.second_row in
    record {
      status_bar = record { x = pos 0; y = pos 0; width = width; height = pos 1 };
      slots =
          (projects, record { x = pos 0; y = pos 1; width = left; height = b.top_row })
          ∷ (overview, record { x = left; y = pos 1; width = right; height = b.top_row })
          ∷ (topology, record { x = pos 0; y = second_y; width = left; height = b.second_row })
          ∷ (cicd, record { x = left; y = second_y; width = right; height = b.second_row })
          ∷ (logs, record { x = pos 0; y = logs_y; width = width; height = b.logs })
          ∷ [];
    }

abbrev pub default_standard_width : ℤ
default_standard_width = pos 100

abbrev pub default_standard_height : ℤ
default_standard_height = pos 30

unfoldable pub compute_standard_layout : ℤ → ℤ → LayoutMap
compute_standard_layout given_width given_height =
    let width = if leb_ℤ given_width (pos 0) then default_standard_width else given_width in
    let height = if leb_ℤ given_height (pos 0) then default_standard_height else given_height in
    let available = at_least (pos 2) (height -ℤ pos 1) in
    let projects_height = at_least (pos 1) (quot available 2) in
    let overview_height = available -ℤ projects_height in
    record {
      status_bar = record { x = pos 0; y = pos 0; width = width; height = pos 1 };
      slots =
          (projects, record { x = pos 0; y = pos 1; width = width; height = projects_height })
          ∷ (
            overview,
            record {
              x = pos 0;
              y = pos 1 +ℤ projects_height;
              width = width;
              height = overview_height;
            },
          )
          ∷ [];
    }

abbrev nowhere : Rect
nowhere = record { x = pos 0; y = pos 0; width = pos 0; height = pos 0 }

-- Engine.ComputeLayout
unfoldable pub compute_layout : ℤ → ℤ → Mode → LayoutMap
unfolding compute_ultra_layout compute_standard_layout
compute_layout width height tiny = record { status_bar = nowhere; slots = [] }
compute_layout width height standard = compute_standard_layout width height
compute_layout width height ultra = compute_ultra_layout width height ultra
compute_layout width height ultra_plus = compute_ultra_layout width height ultra_plus
