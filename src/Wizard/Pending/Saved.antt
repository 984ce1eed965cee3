-- ===== src/Wizard/Pending/Saved.antt =====
-- What SavePending leaves in the file, and what LoadPending makes of it.
use webox.Prelude.{
  ◌≡◌, refl, ◌∙◌, inl, inr, Option-cases, ℕ, true, List, [], ◌∷◌, ◌++◌, Option, none, some, All,
  false,
}
use webox.Prelude.Text.{Text, is_empty}
use webox.Errors.{Error, ok, Result-cases}
use webox.Presets.Order.{text_lt}
use webox.Wizard.Step.{CleanupStep}
use webox.Wizard.Stack.{first_invalid}
use webox.Wizard.Pending.{
  Disk, PendingCleanups, bytes, check_loaded, load_parsed, load_read, load_pending, save_pending,
  snapshot_of, fsync_dir, move_temp, then_do, write_pending_temp, write_snapshot,
  new_file_persister_with_profile,
}
use webox.Wizard.Pending.Checked.{save_pending-checked}

-- The keys in strictly ascending order, in which json.Marshal writes a map.
abbrev pub IsAscending : List (Text × Text) → Type 0
IsAscending [] = Unit
IsAscending (p ∷ []) = Unit
IsAscending (p ∷ q ∷ ps) = (text_lt p.0 q.0 ≡ true) × IsAscending (q ∷ ps)

-- What a save relies on: `held` tells what a temporary file holds. A write puts its bytes there and a
-- sync leaves them, a rename makes them the file's, and opening and syncing the directory leave the
-- file. JSON gives a snapshot of valid steps back, with a line feed behind it, if its maps are listed
-- in the order of their keys.
pub record Relies {W : Type 0} (disk : Disk W) (held : Text → W → Option Text) : Type 0 where
  pub wrote :
      (tmp raw : Text) (w : W)
      → (disk.write_temp tmp raw w).1 ≡ none
      → held tmp (disk.write_temp tmp raw w).0 ≡ some raw
  pub synced : (tmp : Text) (w : W) → held tmp (disk.sync_temp tmp w).0 ≡ held tmp w
  pub renamed :
      (tmp raw : Text) (w : W)
      → held tmp w ≡ some raw
      → (disk.rename tmp w).1 ≡ none
      → disk.read_file (disk.rename tmp w).0 ≡ bytes raw
  pub opened_dir : (w : W) → disk.read_file (disk.open_dir w).0 ≡ disk.read_file w
  pub synced_dir : (w : W) → disk.read_file (disk.sync_dir w).0 ≡ disk.read_file w
  pub decodes :
      (snap : PendingCleanups) (raw : Text)
      → All (λ (s : CleanupStep). IsAscending s.params) snap.steps
      → first_invalid snap.steps ≡ none
      → disk.marshal snap ≡ ok raw
      → disk.unmarshal (raw ++ 10 ∷ []) ≡ ok snap

module _ {W : Type 0} (disk : Disk W) (held : Text → W → Option Text) (r : Relies disk held) where
  fsync_dir-file : (w : W) → disk.read_file (fsync_dir disk w).0 ≡ disk.read_file w
  unfolding fsync_dir
  fsync_dir-file w = elim (Option-cases (disk.open_dir w).1) [
    | inr (e, q) ↦ rw (fsync_dir, q) (r.opened_dir w)
    | inl q ↦ elim (Option-cases (disk.sync_dir (disk.open_dir w).0).1) [
      | inr (e, s) ↦ rw (fsync_dir, q, s) (r.synced_dir (disk.open_dir w).0 ∙ r.opened_dir w)
      | inl s ↦ rw (fsync_dir, q, s) (r.synced_dir (disk.open_dir w).0 ∙ r.opened_dir w)
    ]
  ]

  move_temp-file :
      (tmp raw : Text) (w : W)
      → held tmp w ≡ some raw
      → (move_temp disk tmp w).1 ≡ none
      → disk.read_file (move_temp disk tmp w).0 ≡ bytes raw
  unfolding move_temp
  move_temp-file tmp raw w h = elim (Option-cases (disk.rename tmp w).1) [
    | inr (e, q) ↦ rw (move_temp, q) (λ o. absurd (cc o))
    | inl q ↦
        rw (move_temp, q) (λ o. fsync_dir-file (disk.rename tmp w).0 ∙ r.renamed tmp raw w h q)
  ]

  write_pending_temp-held :
      (tmp raw : Text) (w : W)
      → (write_pending_temp disk tmp raw w).1 ≡ none
      → held tmp (write_pending_temp disk tmp raw w).0 ≡ some raw
  unfolding write_pending_temp
  write_pending_temp-held tmp raw w =
      let opened : W = (disk.open_temp tmp w).0 in
      let written : W = (disk.write_temp tmp raw opened).0 in
      elim (Option-cases (disk.open_temp tmp w).1) [
        | inr (e, q) ↦ rw (write_pending_temp, q) (λ o. absurd (cc o))
        | inl q ↦ elim (Option-cases (disk.write_temp tmp raw opened).1) [
          | inr (e, p) ↦ rw (write_pending_temp, q, p) (λ o. absurd (cc o))
          | inl p ↦ elim (Option-cases (disk.sync_temp tmp written).1) [
            | inr (e, s) ↦ rw (write_pending_temp, q, p, s) (λ o. absurd (cc o))
            | inl s ↦
                rw (write_pending_temp, q, p, s)
                  (λ o. r.synced tmp written ∙ r.wrote tmp raw opened p)
          ]
        ]
      ]

  -- The file holds the snapshot as JSON.
  abbrev Written : PendingCleanups → W × Option Error → Type 0
  Written snap out =
      out.1 ≡ none
      → (raw : Text) × (disk.marshal snap ≡ ok raw)
        × (disk.read_file out.0 ≡ bytes (raw ++ 10 ∷ []))

  write_snapshot-Written :
      (snap : PendingCleanups) (w : W) → Written snap (write_snapshot disk snap w)
  unfolding write_snapshot
  write_snapshot-Written snap w =
      let made : W = (disk.mkdir_all w).0 in
      let named : W = (disk.temp_path made).0 in
      elim (Option-cases (disk.mkdir_all w).1) [
        | inr (e, q) ↦ rw (write_snapshot, q) (λ o. absurd (cc o))
        | inl q ↦ elim (Result-cases (disk.marshal snap)) [
          | inr (e, m) ↦ rw (write_snapshot, q, m) (λ o. absurd (cc o))
          | inl (raw, m) ↦ elim (Result-cases (disk.temp_path made).1) [
            | inr (e, t) ↦ rw (write_snapshot, q, m, then_do, t) (λ o. absurd (cc o))
            | inl (tmp, t) ↦
                let text : Text = raw ++ 10 ∷ [] in
                let out : W × Option Error = write_pending_temp disk tmp text named in
                elim (Option-cases out.1) [
                  | inr (e, p) ↦ rw (write_snapshot, q, m, then_do, t, p) (λ o. absurd (cc o))
                  | inl p ↦
                      rw (write_snapshot, q, m, then_do, t, p)
                        (λ o. (
                          raw,
                          refl,
                          move_temp-file tmp text out.0 (write_pending_temp-held tmp text named p)
                              o,
                        ))
                ]
          ]
        ]
      ]

  save_pending-Written :
      (id profile : Text) (t : ℕ) (steps : List CleanupStep) (w : W)
      → Written
          (snapshot_of id profile t steps)
          (save_pending disk (some (snapshot_of id profile t steps)) w)
  unfolding save_pending snapshot_of
  save_pending-Written id profile t steps w = elim (Option-cases (disk.ctx_err w).1) [
    | inr (e, q) ↦ rw (save_pending, q) (λ o. absurd (cc o))
    | inl q ↦ elim (Option-cases (first_invalid steps)) [
      | inr (e, f) ↦ rw (save_pending, q, f) (λ o. absurd (cc o))
      | inl f ↦
          rw (save_pending, q, f)
            (write_snapshot-Written (snapshot_of id profile t steps) (disk.ctx_err w).0)
    ]
  ]

  never_empty : (raw : Text) → is_empty (raw ++ 10 ∷ []) ≡ false
  never_empty [] = refl
  never_empty (c ∷ raw) = refl

  -- After the persister has saved a stack without an error, LoadPending gives the same steps back,
  -- under the ids and the time of the save, if the parameters of each step are listed by their keys.
  -- The disk and JSON are taken to do what they document.
  pub persister-load_pending :
      (id profile : Text) (step : CleanupStep) (steps : List CleanupStep) (w : W)
      → All (λ (s : CleanupStep). IsAscending s.params) (step ∷ steps)
      → (new_file_persister_with_profile disk id profile (step ∷ steps) w).1 ≡ none
      → load_pending disk (new_file_persister_with_profile disk id profile (step ∷ steps) w).0
        ≡ ok (some (snapshot_of id profile (disk.now w) (step ∷ steps)))
  unfolding load_pending load_read load_parsed check_loaded snapshot_of
      new_file_persister_with_profile
  persister-load_pending id profile step steps w sorted saved =
      let snap : PendingCleanups = snapshot_of id profile (disk.now w) (step ∷ steps) in
      let valid : first_invalid (step ∷ steps) ≡ none =
        save_pending-checked disk id profile (disk.now w) (step ∷ steps) w saved in
      let (raw, made, read) = save_pending-Written id profile (disk.now w) (step ∷ steps) w saved in
      rw
        (
          load_pending,
          read,
          load_read,
          never_empty raw,
          r.decodes snap raw sorted valid made,
          load_parsed,
          check_loaded,
          valid,
        )
        refl
