-- ===== src/Bento.antt =====
-- Package tui/bento, the part that plans the grid: the layout tier, the row budgets, the rectangle
-- of each slot, and the slot under a mouse click. Sizes are integers without bound.
pub mod Mode
pub mod Layout
pub mod Budget
pub mod Partition
pub mod Cover
pub mod Inside
mod Tests
