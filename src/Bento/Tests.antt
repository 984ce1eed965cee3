-- ===== src/Bento/Tests.antt =====
-- The theorems about the bento grid on some screens.
use webox.Bento.Partition.{above}
use webox.Prelude.Text.{text_eq}
use webox.Prelude.Text.{trim_space}
use webox.Prelude.{◌≡◌, refl, [], ◌∷◌, some, All, arith, ◌≤◌}
use mathlib.Core.List.Permᴰ
use webox.Prelude.Int.{pos, ◌+ℤ◌, ◌-ℤ◌, scale, quot}
use webox.Prelude.Text.{codes}
use webox.Bento.Mode.{
  tiny, standard, ultra, ultra_plus, detect_mode, resolve, parse_layout_override,
}
use webox.Bento.Layout.{
  empty, contains, left_ratio, left_col, plan_row_budgets, compute_ultra_layout, Slot, cicd,
  find_slot, slot_at, compute_layout, usable_budget, LayoutMap,
}
use webox.Bento.Partition.{hits}
use webox.Bento.Partition.{Holds}
use webox.Bento.Cover.{slot_at-compute_layout, compute_layout-cover, OnGrid}
use webox.Bento.Inside.{Inside, compute_layout-Inside}

modes :
    detect_mode (pos 0) (pos 50)
      ∷ detect_mode (pos 69) (pos 50)
      ∷ detect_mode (pos 119) (pos 50)
      ∷ detect_mode (pos 120) (pos 35)
      ∷ detect_mode (pos 160) (pos 44)
      ∷ detect_mode (pos 160) (pos 45)
      ∷ []
    ≡ standard ∷ tiny ∷ standard ∷ ultra ∷ ultra ∷ ultra_plus ∷ []
unfolding detect_mode
modes = refl

-- An override wins over the size of the screen.
override : resolve (pos 80) (pos 24) (codes " Ultra+ ") ≡ ultra_plus
unfolding resolve parse_layout_override text_eq trim_space
override = refl

abbrev wide : LayoutMap
wide = compute_layout (pos 120) (pos 35) ultra

click_at : slot_at wide (pos 60) (pos 14) ≡ some cicd
unfolding slot_at find_slot contains empty compute_layout compute_ultra_layout left_col left_ratio
    usable_budget plan_row_budgets scale quot ◌+ℤ◌ ◌-ℤ◌
click_at = refl

slot_at-compute_layout_example :
    (find_slot wide.slots (pos 60) (pos 14) ≡ slot_at wide (pos 60) (pos 14))
    × (hits wide.slots (pos 60) (pos 14) ≤ 1)
slot_at-compute_layout_example =
    slot_at-compute_layout (pos 120) (pos 35) ultra wide.slots (pos 60) (pos 14)
      (Permᴰ.refl wide.slots)

compute_layout-Inside_example :
    All
      (Inside (pos 130) (pos 40))
      (compute_layout (pos 130) (pos 40) (detect_mode (pos 130) (pos 40))).slots
compute_layout-Inside_example = compute_layout-Inside 130 40 (omega arith) (omega arith)

on_grid : OnGrid wide (pos 60) (pos 14)
unfolding compute_layout compute_ultra_layout ◌+ℤ◌ above quot ◌-ℤ◌
on_grid = (refl, omega arith, refl)

compute_layout-cover_example :
    (hits wide.slots (pos 60) (pos 14) ≡ 1)
    × (s : Slot) × (slot_at wide (pos 60) (pos 14) ≡ some s)
    × Holds s (pos 60) (pos 14) wide.slots
compute_layout-cover_example =
    compute_layout-cover (pos 120) (pos 35) ultra (pos 60) (pos 14) on_grid
