-- ===== src/Wizard/Pending/Checked.antt =====
-- What a snapshot file that is accepted holds.
use webox.Prelude.{◌≡◌, refl, inl, inr, Option-cases, Bool-cases, ℕ, List, none, some, arith}
use webox.Prelude.Text.{Text, is_empty}
use webox.Errors.{Result, ok, err}
use webox.Wizard.Step.{CleanupStep}
use webox.Wizard.Stack.{Stack, first_invalid, load_snapshot}
use webox.Wizard.Pending.{
  Disk, PendingCleanups, bytes, missing, unreadable, pending_schema_version, check_loaded,
  load_parsed, load_read, Read, load_pending, save_pending, snapshot_of,
}

check_loaded-some :
    (given snap : PendingCleanups)
    → check_loaded given ≡ ok (some snap)
    → (given ≡ snap)
      × (first_invalid given.steps ≡ none)
      × (given.schema_version ≡ pending_schema_version)
unfolding check_loaded
check_loaded-some given snap h = elim (Option-cases (first_invalid given.steps)) [
  | inl q ↦ ground (arith, h, q)
  | inr (e, q) ↦ absurd (ground (arith, h, q))
]

load_parsed-some :
    (r : Result PendingCleanups) (snap : PendingCleanups)
    → load_parsed r ≡ ok (some snap)
    → (first_invalid snap.steps ≡ none) × (snap.schema_version ≡ pending_schema_version)
unfolding load_parsed
load_parsed-some (err e) snap h = absurd (ground (arith, h))
load_parsed-some (ok given) snap h =
    let (same, valid, version) = check_loaded-some given snap h in rw (← same) (valid, version)

load_read-some :
    (unmarshal : Text → Result PendingCleanups) (r : Read) (snap : PendingCleanups)
    → load_read unmarshal r ≡ ok (some snap)
    → (first_invalid snap.steps ≡ none) × (snap.schema_version ≡ pending_schema_version)
unfolding load_read
load_read-some unmarshal missing snap h = absurd (ground (arith, h))
load_read-some unmarshal (unreadable e) snap h = absurd (ground (arith, h))
load_read-some unmarshal (bytes raw) snap h = elim (Bool-cases (is_empty raw)) [
  | inl q ↦ absurd (ground (arith, h, q))
  | inr q ↦ load_parsed-some (unmarshal raw) snap (ground (arith, h, q))
]

module _ {W : Type 0} (disk : Disk W) where
  -- Every snapshot that LoadPending gives is of the supported version, and Stack.LoadSnapshot takes
  -- its steps over.
  pub load_pending-loads :
      (w : W) (snap : PendingCleanups) (s : Stack)
      → load_pending disk w ≡ ok (some snap)
      → (snap.schema_version ≡ pending_schema_version)
        × (load_snapshot snap.steps s ≡ (record s { steps = snap.steps }, none))
  unfolding load_pending load_snapshot
  load_pending-loads w snap s h =
      let (valid, version) = load_read-some disk.unmarshal (disk.read_file w) snap h in
      (version, rw (load_snapshot, valid) refl)

  pub save_pending-checked :
      (id profile : Text) (t : ℕ) (steps : List CleanupStep) (w : W)
      → (save_pending disk (some (snapshot_of id profile t steps)) w).1 ≡ none
      → first_invalid steps ≡ none
  unfolding save_pending snapshot_of
  save_pending-checked id profile t steps w h = elim (Option-cases (first_invalid steps)) [
    | inl q ↦ q
    | inr (e, q) ↦ elim (Option-cases (disk.ctx_err w).1) [
      | inl c ↦
          let o : (save_pending disk (some (snapshot_of id profile t steps)) w).1 ≡ some e =
            rw (save_pending, c, q) refl in
          absurd (ground (arith, h, o))
      | inr (f, c) ↦
          let o : (save_pending disk (some (snapshot_of id profile t steps)) w).1 ≡ some f =
            rw (save_pending, c) refl in
          absurd (ground (arith, h, o))
    ]
  ]
