-- ===== src/Wizard/Pending.antt =====
-- wizard/pending_cleanups.go: the file that keeps the steps of the stack. `W` is the world with the
-- disk; JSON, the calls of package os and the random suffix of the temporary file are arguments.
pub mod Checked
pub mod Saved
use webox.Prelude.{
  ◌≡◌, refl, ap, sym, ◌∙◌, ◌⊎◌, inl, inr, Option-cases, Bool-cases, ℕ, zero, suc, Bool, true, false,
  List, [], ◌∷◌, ◌++◌, Option, none, some, if◌then◌else◌, arith,
}
use webox.Prelude.Int.{ℤ, pos, negsuc, leb_ℤ, ltb_ℤ}
use webox.Prelude.Text.{Text, is_empty}
use webox.Errors.{
  Error, sentinel, wrap, join, corrupted_snapshot, schema_mismatch, Result, ok, err, Result-cases,
}
use webox.Wizard.Step.{CleanupStep, validate_step}
use webox.Wizard.Stack.{Stack, first_invalid, load_snapshot}

abbrev pub pending_schema_version : ℤ
pending_schema_version = pos 1

-- `updated_at` is none for the zero time.
pub record PendingCleanups : Type 0 where
  pub schema_version : ℤ
  pub wizard_id : Text
  pub profile_alias : Text
  pub updated_at : Option ℕ
  pub steps : List CleanupStep

-- What a read gives: the bytes, that there is no such file, or another error.
pub data Read : Type 0 where
  bytes : Text → Read
  missing : Read
  unreadable : Error → Read

-- The disk at one path, with its directory. `remove` tells a missing file by `true`.
pub record Disk (W : Type 0) : Type 0 where
  pub ctx_err : W → W × Option Error
  pub now : W → ℕ
  pub read_file : W → Read
  pub unmarshal : Text → Result PendingCleanups
  pub marshal : PendingCleanups → Result Text
  pub mkdir_all : W → W × Option Error
  pub temp_path : W → W × Result Text
  pub open_temp : Text → W → W × Option Error
  pub write_temp : Text → Text → W → W × Option Error
  pub sync_temp : Text → W → W × Option Error
  pub rename : Text → W → W × Option Error
  pub remove_temp : Text → W → W
  pub open_dir : W → W × Option Error
  pub sync_dir : W → W × Option Error
  pub remove : W → W × Option (Error × Bool)

-- The error of a step is wrapped beside ErrCorruptedSnapshot.
unfoldable pub check_loaded : PendingCleanups → Result (Option PendingCleanups)
check_loaded snap =
    if leb_ℤ snap.schema_version (pos 0)
    then err (wrap (sentinel corrupted_snapshot))
    else if ltb_ℤ pending_schema_version snap.schema_version
    then err (wrap (sentinel schema_mismatch))
    else elim (first_invalid snap.steps) [
      | some e ↦ err (join (sentinel corrupted_snapshot) e)
      | none ↦ ok (some snap)
    ]

unfoldable pub load_parsed : Result PendingCleanups → Result (Option PendingCleanups)
unfolding check_loaded
load_parsed (err e) = err (join (sentinel corrupted_snapshot) e)
load_parsed (ok snap) = check_loaded snap

unfoldable pub load_read : (Text → Result PendingCleanups) → Read → Result (Option PendingCleanups)
unfolding load_parsed
load_read unmarshal missing = ok none
load_read unmarshal (unreadable e) = err (join (sentinel corrupted_snapshot) e)
load_read unmarshal (bytes raw) =
    if is_empty raw then err (wrap (sentinel corrupted_snapshot)) else load_parsed (unmarshal raw)

unfoldable pub load_pending : {W : Type 0} → Disk W → W → Result (Option PendingCleanups)
unfolding load_read
load_pending disk w = load_read disk.unmarshal (disk.read_file w)

unfoldable pub snapshot_of : Text → Text → ℕ → List CleanupStep → PendingCleanups
snapshot_of wizard_id profile_alias now steps = record {
  schema_version = pending_schema_version;
  wizard_id = wizard_id;
  profile_alias = profile_alias;
  updated_at = some now;
  steps = steps;
}

module _ {W : Type 0} (disk : Disk W) where
  -- The next action after one that went well; an error ends the sequence.
  abbrev pub then_do : W × Option Error → (W → W × Option Error) → W × Option Error
  then_do (w, none) next = next w
  then_do (w, some e) next = (w, some (wrap e))

  unfoldable pub write_pending_temp : Text → Text → W → W × Option Error
  write_pending_temp tmp raw w = then_do (disk.open_temp tmp w) (λ w'.
      then_do (disk.write_temp tmp raw w')
        (λ w''. then_do (disk.sync_temp tmp w'') (λ v. (v, none))))

  unfoldable pub fsync_dir : W → W × Option Error
  fsync_dir w = then_do (disk.open_dir w) (λ w'. then_do (disk.sync_dir w') (λ v. (v, none)))

  -- The rename; after a failed one the temporary file is removed.
  unfoldable pub move_temp : Text → W → W × Option Error
  unfolding fsync_dir
  move_temp tmp w =
      let (w', failed) = disk.rename tmp w in
      elim failed [ some e ↦ (disk.remove_temp tmp w', some (wrap e)) | none ↦ fsync_dir w' ]

  -- SavePending from the directory on.
  unfoldable pub write_snapshot : PendingCleanups → W → W × Option Error
  unfolding write_pending_temp move_temp
  write_snapshot snap w = then_do (disk.mkdir_all w) (λ v. elim (disk.marshal snap) [
    | err e ↦ (v, some (wrap e))
    | ok raw ↦
        let (v', named) = disk.temp_path v in
        elim named [
          | err e ↦ (v', some (wrap e))
          | ok tmp ↦
              let (v'', failed) = write_pending_temp tmp (raw ++ b'\n' ∷ []) v' in
              elim failed [ some e ↦ (v'', some e) | none ↦ move_temp tmp v'' ]
        ]
  ])

  abbrev dated : PendingCleanups → W → PendingCleanups
  dated snap w = elim snap.updated_at [
    | some t ↦ snap
    | none ↦ record snap { updated_at = some (disk.now w) }
  ]

  abbrev versioned : PendingCleanups → PendingCleanups
  versioned snap = elim snap.schema_version [
    | pos n ↦ elim n [
      | zero ↦ record snap { schema_version = pending_schema_version }
      | suc k ↦ snap
    ]
    | negsuc n ↦ snap
  ]

  unfoldable pub save_pending : Option PendingCleanups → W → W × Option Error
  unfolding write_snapshot
  save_pending given w =
      let (w', cancelled) = disk.ctx_err w in
      elim cancelled [
        | some e ↦ (w', some e)
        | none ↦ elim given [
          | none ↦ (w', some (wrap (sentinel corrupted_snapshot)))
          | some g ↦
              let snap = versioned g in
              if ltb_ℤ pending_schema_version snap.schema_version
              then (w', some (wrap (sentinel schema_mismatch)))
              else elim (first_invalid snap.steps) [
                | some e ↦ (w', some e)
                | none ↦ write_snapshot (dated snap w') w'
              ]
        ]
      ]

  unfoldable pub remove_pending : W → W × Option Error
  remove_pending w =
      let (w', failed) = disk.remove w in
      elim failed [
        | none ↦ (w', none)
        | some (e, absent) ↦ if absent then (w', none) else (w', some (wrap e))
      ]

  -- The PersistFunc of NewFilePersisterWithProfile.
  unfoldable pub new_file_persister_with_profile :
      Text → Text → List CleanupStep → W → W × Option Error
  unfolding remove_pending save_pending snapshot_of
  new_file_persister_with_profile wizard_id profile_alias [] w = remove_pending w
  new_file_persister_with_profile wizard_id profile_alias (s ∷ ss) w =
      save_pending (some (snapshot_of wizard_id profile_alias (disk.now w) (s ∷ ss))) w
