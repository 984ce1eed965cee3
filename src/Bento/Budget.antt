-- ===== src/Bento/Budget.antt =====
-- The rows of the grid and the columns of a layout.
use webox.Prelude.{◌≡◌, ℕ, ◌+◌, ◌-◌, ◌/◌, ◌≤◌, if◌then◌else◌, arith, Bool-cases, inl, inr, ltb}
use webox.Prelude.Int.{ℤ, pos, ◌+ℤ◌, ◌-ℤ◌, ◌≤ℤ◌, quot}
use webox.Bento.Mode.{Mode, tiny, standard, ultra, ultra_plus}
use webox.Bento.Layout.{
  RowBudget, plan_row_budgets, usable_budget, bento_logs_min_lines, bento_min_row_lines, at_least,
}

-- Budgets with at least the smallest sizes.
abbrev pub Usable : RowBudget → Type 0
Usable b =
    (bento_min_row_lines ≤ℤ b.top_row)
    × (bento_min_row_lines ≤ℤ b.second_row)
    × (bento_logs_min_lines ≤ℤ b.logs)

pub usable_budget-Usable : (h : ℤ) (mode : Mode) → Usable (usable_budget h mode)
unfolding usable_budget plan_row_budgets quot
usable_budget-Usable h tiny = ground arith
usable_budget-Usable h standard = ground arith
usable_budget-Usable h ultra = ground arith
usable_budget-Usable h ultra_plus = ground arith

-- What a screen of `n` lines gives to log rows that want `target`.
abbrev planned : ℕ → ℕ → RowBudget
planned n target =
    if ltb n (target + 13)
    then record { top_row = pos 6; second_row = pos 6; logs = pos (n - 13) }
    else record {
      top_row = pos ((n - 1 - target) / 2);
      second_row = pos ((n - 1 - target) / 2);
      logs = pos target;
    }

abbrev target_of : Mode → ℕ
target_of ultra_plus = 14
target_of tiny = 10
target_of standard = 10
target_of ultra = 10

plan_row_budgets-planned :
    (n : ℕ) (mode : Mode) → 20 ≤ n → plan_row_budgets (pos n) mode ≡ planned n (target_of mode)
unfolding plan_row_budgets quot ◌-ℤ◌
plan_row_budgets-planned n tiny l = ground (arith, l)
plan_row_budgets-planned n standard l = ground (arith, l)
plan_row_budgets-planned n ultra l = ground (arith, l)
plan_row_budgets-planned n ultra_plus l = ground (arith, l)

-- The two parts of at least two lines.
pub halves :
    (a : ℤ)
    → (pos 1 ≤ℤ at_least (pos 1) (quot (at_least (pos 2) a) 2))
      × (pos 1 ≤ℤ at_least (pos 2) a -ℤ at_least (pos 1) (quot (at_least (pos 2) a) 2))
unfolding quot ◌-ℤ◌
halves a = ground arith

usable_budget-planned :
    (n : ℕ) (mode : Mode) → 20 ≤ n → usable_budget (pos n) mode ≡ planned n (target_of mode)
unfolding usable_budget
usable_budget-planned n tiny l =
    rw (usable_budget, plan_row_budgets-planned n tiny l) (ground (arith, l))
usable_budget-planned n standard l =
    rw (usable_budget, plan_row_budgets-planned n standard l) (ground (arith, l))
usable_budget-planned n ultra l =
    rw (usable_budget, plan_row_budgets-planned n ultra l) (ground (arith, l))
usable_budget-planned n ultra_plus l =
    rw (usable_budget, plan_row_budgets-planned n ultra_plus l) (ground (arith, l))

planned_fits :
    (n t : ℕ)
    → 20 ≤ n
    → pos 1 +ℤ (planned n t).top_row +ℤ (planned n t).second_row +ℤ (planned n t).logs ≤ℤ pos n
unfolding ◌+ℤ◌
planned_fits n t l = elim (Bool-cases (ltb n (t + 13))) [
  | inl q ↦ rw q (ground (arith, l))
  | inr q ↦ rw q (ground (arith, l, q))
]

-- A screen of at least 20 lines has room for the status bar and the rows of the grid.
pub usable_budget-fits :
    (n : ℕ) (mode : Mode)
    → 20 ≤ n
    → pos 1
        +ℤ (usable_budget (pos n) mode).top_row
        +ℤ (usable_budget (pos n) mode).second_row
        +ℤ (usable_budget (pos n) mode).logs
      ≤ℤ pos n
usable_budget-fits n mode l =
    rw (usable_budget-planned n mode l) (planned_fits n (target_of mode) l)
