-- ===== src/Config/Migrate.antt =====
-- config/migrate.go and config/migrate_v0_to_v1.go.
use webox.Prelude.{ℕ, zero, suc, List, [], ◌∷◌, ◌++◌, Option, none, some, if◌then◌else◌}
use webox.Prelude.Int.{ℤ, pos, leb_ℤ, ltb_ℤ}
use webox.Prelude.Text.{Text, codes, is_empty}
use webox.Errors.{
  sentinel, wrap, join, Result, ok, err, invalid_json, migration_failed, no_migrator,
  config_schema_mismatch,
}
use webox.Config.Schema.{Checks, validate}

abbrev pub current : ℤ
current = pos 1

-- A configuration; what stands in a profile, a project and the settings is passed on unread.
pub record Config (Profile Project Settings : Type 0) : Type 0 where
  pub schema_version : ℤ
  pub language : Text
  pub profiles : List Profile
  pub projects : Option (List Project)
  pub settings : Option Settings

pub record V0Config (Profile Project Settings : Type 0) : Type 0 where
  pub language : Text
  pub profile : Profile
  pub projects : Option (List Project)
  pub settings : Option Settings

-- encoding/json on the header, on an old configuration and on a new one.
pub record Codec (Profile Project Settings : Type 0) : Type 0 where
  pub decode_header : Text → Result (Option ℤ)
  pub decode_v0 : Text → Result (V0Config Profile Project Settings)
  pub marshal_indent : Config Profile Project Settings → Result Text

abbrev or_zero : Option ℤ → ℤ
or_zero none = pos 0
or_zero (some v) = v

abbrev or_no_projects : {P : Type 0} → Option (List P) → Option (List P)
or_no_projects none = some []
or_no_projects (some ps) = some ps

module _ {Profile Project Settings : Type 0} where
  -- The new configuration of an old one.
  unfoldable pub config_of : V0Config Profile Project Settings → Config Profile Project Settings
  config_of legacy = record {
    schema_version = current;
    language = if is_empty legacy.language then codes "en" else legacy.language;
    profiles = legacy.profile ∷ [];
    projects = or_no_projects legacy.projects;
    settings = legacy.settings;
  }

module _ {Profile Project Settings : Type 0} (env : Checks)
    (json : Codec Profile Project Settings) where
  unfoldable pub schema_version_of : Text → Result ℤ
  schema_version_of raw = elim (json.decode_header raw) [
    | err e ↦ err (join (sentinel invalid_json) e)
    | ok version ↦ ok (or_zero version)
  ]

  unfoldable pub migrate_legacy : Text → Result (Text × ℤ)
  unfolding config_of
  migrate_legacy raw = elim (json.decode_v0 raw) [
    | err e ↦ err (join (sentinel invalid_json) e)
    | ok legacy ↦ elim (json.marshal_indent (config_of legacy)) [
      | err e ↦ err (wrap e)
      | ok out ↦ ok (out ++ 10 ∷ [], current)
    ]
  ]

  unfoldable pub migrate_v0_to_v1 : Text → Result (Text × ℤ)
  unfolding schema_version_of migrate_legacy
  migrate_v0_to_v1 raw = elim (schema_version_of raw) [
    | err e ↦ err e
    | ok version ↦ if leb_ℤ current version then ok (raw, version) else migrate_legacy raw
  ]

  -- The registered migration of a version.
  unfoldable pub migration : ℤ → Option (Text → Result (Text × ℤ))
  unfolding migrate_v0_to_v1
  migration (pos zero) = some migrate_v0_to_v1
  migration (pos (suc n)) = none
  migration _ = none

  abbrev pub checked : Text → Result Text
  checked raw = elim (validate env raw) [
    | some e ↦ err (join (sentinel migration_failed) e)
    | none ↦ ok raw
  ]

  -- The loop, and the check behind it; none when the fuel ends first.
  unfoldable pub migrate_loop : ℕ → Text → ℤ → Option (Result Text)
  unfolding migration
  migrate_loop zero raw version = none
  migrate_loop (suc fuel) raw version =
      if leb_ℤ current version then some (checked raw) else elim (migration version) [
        | none ↦ some (err (join (sentinel migration_failed) (sentinel no_migrator)))
        | some run ↦ elim (run raw) [
          | err e ↦ some (err (join (sentinel migration_failed) e))
          | ok (next, new_version) ↦
              if leb_ℤ new_version version
              then some (err (wrap (sentinel migration_failed)))
              else migrate_loop fuel next new_version
        ]
      ]

  unfoldable pub migrate : ℕ → Text → Option (Result Text)
  unfolding migrate_loop
  migrate fuel raw = elim (schema_version_of raw) [
    | err e ↦ some (err e)
    | ok version ↦
        let migrated = migrate_loop fuel raw version in
        let valid = elim (validate env raw) as (λ x. Result Text) [
          | some e ↦ err e
          | none ↦ ok raw
        ] in
        if ltb_ℤ current version
        then some (err (wrap (sentinel config_schema_mismatch)))
        else if leb_ℤ current version
        then some valid
        else migrated
  ]
