-- ===== src/Config/Store.antt =====
-- config/load.go and config/save.go, over a disk.
use webox.Prelude.{Bool, ◌||◌, List, [], ◌∷◌, ◌++◌, Option, none, some, if◌then◌else◌}
use webox.Prelude.Int.{ltb_ℤ}
use webox.Prelude.Text.{Text, codes}
use webox.Files.{attempt, replaced}
use webox.Errors.{
  Error, sentinel, wrap, join, is, Result, ok, err, invalid_json, migration_failed,
  config_schema_mismatch, corrupted_config, schema_violation, secret_in_config,
  dangling_profile_alias,
}
use webox.Config.Schema.{Checks, validate}
use webox.Config.Migrate.{Config, Codec, current, schema_version_of, migrate}

-- The operations on files, each of which gives an error or none (for a read, an error other than a
-- missing file), and the decoding of a configuration.
pub record Store (C W : Type 0) : Type 0 where
  pub decode_config : Text → Result C
  pub ctx_err : W → Option Error × W
  pub read_error : W → Option Error × W
  pub mkdir_all : W → Option Error × W
  pub lock_exclusive : W → Option Error × W
  pub unlock : W → W
  pub temp_path : W → Option Error × W
  pub open_temp : W → Option Error × W
  pub write_temp : Text → W → Option Error × W
  pub sync_temp : W → Option Error × W
  pub close_temp : W → W
  pub remove_temp : W → W
  pub rename : W → Option Error × W
  pub sync_dir : W → Option Error × W
  pub open_backup : W → Option Error × W
  pub write_backup : Text → W → Option Error × W
  pub sync_backup : W → Option Error × W
  pub close_backup : W → W

-- The configuration file, the complete backups beside it, and all else.
pub record ConfigDir (W : Type 0) : Type 0 where
  pub file : Option Text
  pub backups : List Text
  pub world : W

abbrev is_content_error : Error → Bool
is_content_error e = is e schema_violation || is e secret_in_config || is e dangling_profile_alias

unfoldable pub wrap_migration_load_error : Error → Error
wrap_migration_load_error e =
    if is e invalid_json
    then join (sentinel corrupted_config) e
    else join (sentinel migration_failed) e

module _ {P Q S W : Type 0} (env : Checks) (json : Codec P Q S)
    (store : Store (Config P Q S) W) where
  unfoldable pub marshal_config : Config P Q S → Result Text
  marshal_config cfg = elim (json.marshal_indent cfg) [
    | err e ↦ err (wrap e)
    | ok text ↦ elim (validate env (text ++ 10 ∷ [])) [
      | none ↦ ok (text ++ 10 ∷ [])
      | some e ↦ err (if is_content_error e then join (sentinel config_schema_mismatch) e else e)
    ]
  ]

  -- Each stage of a save with those behind it.
  abbrev pub synced_dir : Text → W → Option Error × Option Text × W
  synced_dir raw w = let synced = store.sync_dir w in (synced.0, some raw, synced.1)

  abbrev pub temp_renamed : Text → W → Option Error × Option Text × W
  temp_renamed raw w = attempt store.rename store.remove_temp (synced_dir raw) (store.close_temp w)

  abbrev pub temp_synced : Text → W → Option Error × Option Text × W
  temp_synced raw = attempt store.sync_temp store.close_temp (temp_renamed raw)

  abbrev pub temp_written : Text → W → Option Error × Option Text × W
  temp_written raw = attempt (store.write_temp raw) store.close_temp (temp_synced raw)

  abbrev pub temp_opened : Text → W → Option Error × Option Text × W
  temp_opened raw = attempt store.open_temp (λ w. w) (temp_written raw)

  unfoldable pub write_config : Text → W → Option Error × Option Text × W
  write_config raw = attempt store.temp_path (λ w. w) (temp_opened raw)

  -- Behind the lock, which is given up at the end.
  unfoldable pub locked_save : Config P Q S → W → Option Error × Option Text × W
  unfolding marshal_config write_config
  locked_save cfg w =
      let held = store.lock_exclusive w in
      elim held.0 [
        | some e ↦ (some e, none, held.1)
        | none ↦ elim (marshal_config cfg) [
          | err e ↦ (some e, none, store.unlock held.1)
          | ok raw ↦ let out = write_config raw held.1 in (out.0, out.1, store.unlock out.2)
        ]
      ]

  unfoldable pub save : Config P Q S → ConfigDir W → Option Error × ConfigDir W
  unfolding locked_save
  save cfg d =
      let ended = store.ctx_err d.world in
      let out = attempt store.mkdir_all (λ w. w) (locked_save cfg) ended.1 in
      elim ended.0 [
        | some e ↦ (some e, record d { world = ended.1 })
        | none ↦ (out.0, record d { file = replaced out.1 d.file; world = out.2 })
      ]

  abbrev pub kept_backup : Text → W → Option Error × Option Text × W
  kept_backup raw w = (none, some raw, store.close_backup w)

  abbrev pub backup_synced : Text → W → Option Error × Option Text × W
  backup_synced raw = attempt store.sync_backup store.close_backup (kept_backup raw)

  abbrev pub backup_written : Text → W → Option Error × Option Text × W
  backup_written raw = attempt (store.write_backup raw) store.close_backup (backup_synced raw)

  abbrev pub with_backup : Option Text → List Text → List Text
  with_backup none old = old
  with_backup (some raw) old = old ++ raw ∷ []

  unfoldable pub backup_original : Text → ConfigDir W → Option Error × ConfigDir W
  backup_original raw d =
      let out = attempt store.open_backup (λ w. w) (backup_written raw) d.world in
      (out.0, record d { backups = with_backup out.1 d.backups; world = out.2 })

  -- Two turns are enough for Migrate; without them it would be a failure.
  abbrev pub migrated_text : Text → Result Text
  migrated_text raw = elim (migrate env json 2 raw) [
    | none ↦ err (sentinel migration_failed)
    | some r ↦ r
  ]

  unfoldable pub save_migrated : Config P Q S → ConfigDir W → Result (Config P Q S) × ConfigDir W
  unfolding save
  save_migrated cfg d =
      let saved = save cfg d in
      elim saved.0 [
        | some e ↦ (err (join (sentinel migration_failed) e), saved.1)
        | none ↦ (ok cfg, saved.1)
      ]

  -- The file of an older version.
  unfoldable pub load_old : Text → ConfigDir W → Result (Config P Q S) × ConfigDir W
  unfolding backup_original save_migrated
  load_old raw d = elim (migrated_text raw) [
    | err e ↦ (err (wrap_migration_load_error e), d)
    | ok text ↦
        let b = backup_original raw d in
        elim b.0 [
          | some e ↦ (err (join (sentinel migration_failed) e), b.1)
          | none ↦ elim (store.decode_config text) [
            | err e ↦ (err (join (sentinel migration_failed) e), b.1)
            | ok cfg ↦ save_migrated cfg b.1
          ]
        ]
  ]

  -- The file of this version.
  unfoldable pub load_current : Text → Result (Config P Q S)
  load_current raw = elim (validate env raw) [
    | some e ↦ err (
        if is_content_error e
        then join (sentinel config_schema_mismatch) e
        else join (sentinel corrupted_config) e)
    | none ↦ elim (store.decode_config raw) [
      | err e ↦ err (join (sentinel corrupted_config) e)
      | ok cfg ↦ ok cfg
    ]
  ]

  unfoldable pub load_raw : Text → ConfigDir W → Result (Config P Q S) × ConfigDir W
  unfolding load_old load_current
  load_raw raw d = elim (schema_version_of env json raw) [
    | err e ↦ (err (join (sentinel corrupted_config) e), d)
    | ok version ↦
        if ltb_ℤ current version
        then (err (wrap (sentinel config_schema_mismatch)), d)
        else if ltb_ℤ version current
        then load_old raw d
        else (load_current raw, d)
  ]

  unfoldable pub default_config : Config P Q S
  default_config = record {
    schema_version = current;
    language = codes "en";
    profiles = [];
    projects = some [];
    settings = none;
  }

  unfoldable pub load : ConfigDir W → Result (Config P Q S) × ConfigDir W
  unfolding load_raw default_config
  load d =
      let ended = store.ctx_err d.world in
      let read = store.read_error ended.1 in
      let d' : ConfigDir W = record d { world = read.1 } in
      elim ended.0 [
        | some e ↦ (err e, record d { world = ended.1 })
        | none ↦ elim read.0 [
          | some e ↦ (err (join (sentinel corrupted_config) e), d')
          | none ↦ elim d.file [ none ↦ (ok default_config, d') | some raw ↦ load_raw raw d' ]
        ]
      ]
