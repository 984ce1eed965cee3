-- ===== src/Files.antt =====
-- A file that is replaced in stages, shared by secrets and config. A stage gives the error, what the
-- file has become (none where it is as before), and the world.
use webox.Prelude.{◌≡◌, refl, Option, none, some, ◌⊎◌, inl, inr, Option-cases}
use webox.Prelude.Text.{Text}
use webox.Errors.{Error, wrap}

-- The file at a path, none where there is no such file, and all else.
pub record Disk (W : Type 0) : Type 0 where
  pub file : Option Text
  pub world : W

abbrev pub replaced : Option Text → Option Text → Option Text
replaced none before = before
replaced (some new) before = some new

module _ {W : Type 0} where
  -- An operation, `undo` after its failure, or else the operations behind it.
  abbrev pub attempt :
      (W → Option Error × W)
      → (W → W)
      → (W → Option Error × Option Text × W)
      → W
      → Option Error × Option Text × W
  attempt op undo next w =
      let done = op w in
      elim done.0 [ some e ↦ (some (wrap e), none, undo done.1) | none ↦ next done.1 ]

  -- The outcome of a write: the new file, or an error and the file as before.
  abbrev pub Outcome : Text → Option Error × Option Text × W → Type 0
  Outcome new o = (o.1 ≡ some new) ⊎ ((o.1 ≡ none) × (e : Error) × (o.0 ≡ some e))

  pub attempt-Outcome :
      (new : Text) (op : W → Option Error × W) (undo : W → W)
      (next : W → Option Error × Option Text × W)
      → ((v : W) → Outcome new (next v))
      → (w : W) → Outcome new (attempt op undo next w)
  attempt-Outcome new op undo next h w = elim (Option-cases (op w).0) [
    | inl q ↦ rw (attempt, q) (h (op w).1)
    | inr (e, q) ↦ rw (attempt, q) (inr (refl, wrap e, refl))
  ]
