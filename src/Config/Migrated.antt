-- ===== src/Config/Migrated.antt =====
-- What Migrate of config/migrate.go gives.
use webox.Prelude.{
  ◌≡◌, refl, ap, ◌∙◌, zero, suc, false, [], ◌∷◌, ◌++◌, Option, none, some, arith, Option-cases,
  Bool-cases, inl, inr,
}
use webox.Prelude.Int.{ℤ, pos, negsuc, leb_ℤ, ltb_ℤ}
use webox.Prelude.Text.{Text}
use webox.Errors.{
  Result, ok, err, Result-cases, wrap, join, sentinel, migration_failed, invalid_json, no_migrator,
  config_schema_mismatch,
}
use webox.Config.Schema.{Checks, validate}
use webox.Config.Migrate.{
  Config, Codec, config_of, schema_version_of, migrate_legacy, migrate_v0_to_v1, migration,
  migrate_loop, migrate, current, checked,
}

module _ {Profile Project Settings : Type 0} (env : Checks)
    (json : Codec Profile Project Settings) where
  -- A result that is an error, or a text that Validate accepts and Migrate leaves as it is.
  abbrev pub Settled : Result Text → Type 0
  Settled (err e) = Unit
  Settled (ok out) = (validate env out ≡ none) × (migrate env json 2 out ≡ some (ok out))

  abbrev pub Ends : Option (Result Text) → Type 0
  Ends o = (r : Result Text) × (o ≡ some r) × Settled r

  kept :
      (out : Text)
      → schema_version_of env json out ≡ ok current
      → validate env out ≡ none
      → migrate env json 2 out ≡ some (ok out)
  unfolding migrate
  kept out v h = rw (migrate, v, h) refl

  -- The header of a migrated file is read back.
  abbrev pub ReadsHeader : Type 0
  ReadsHeader =
      (c : Config Profile Project Settings) (t : Text)
      → json.marshal_indent c ≡ ok t
      → json.decode_header (t ++ 10 ∷ []) ≡ ok (some c.schema_version)

  last_turn :
      (out : Text)
      → schema_version_of env json out ≡ ok current
      → Ends (migrate_loop env json 1 out current)
  unfolding migrate_loop
  last_turn out v = elim (Option-cases (validate env out)) [
    | inl q ↦ (ok out, rw (migrate_loop, checked, q) refl, (q, kept out v q))
    | inr (e, q) ↦
        (err (join (sentinel migration_failed) e), rw (migrate_loop, checked, q) refl, tt)
  ]

  first_turn :
      (header : ReadsHeader) (raw : Text)
      → schema_version_of env json raw ≡ ok (pos 0)
      → Ends (migrate_loop env json 2 raw (pos 0))
  unfolding migrate_loop migration migrate_v0_to_v1 migrate_legacy config_of schema_version_of
  first_turn header raw v = elim (Result-cases (json.decode_v0 raw)) [
    | inr (e, q) ↦ (
      err (join (sentinel migration_failed) (join (sentinel invalid_json) e)),
      rw (migrate_loop, migration, migrate_v0_to_v1, v, migrate_legacy, q) refl,
      tt,
    )
    | inl (legacy, q) ↦ elim (Result-cases (json.marshal_indent (config_of legacy))) [
      | inr (e, m) ↦ (
        err (join (sentinel migration_failed) (wrap e)),
        rw (migrate_loop, migration, migrate_v0_to_v1, v, migrate_legacy, q, m) refl,
        tt,
      )
      | inl (t, m) ↦
          let out = t ++ 10 ∷ [] in
          let h : schema_version_of env json out ≡ ok current =
            rw (schema_version_of, header (config_of legacy) t m) refl in
          let o : migrate_loop env json 2 raw (pos 0) ≡ migrate_loop env json 1 out current =
            rw (migrate_loop, migration, migrate_v0_to_v1, v, migrate_legacy, q, m) refl in
          rw o (last_turn out h)
    ]
  ]

  -- The turns from a version that is behind.
  from_behind :
      (header : ReadsHeader) (raw : Text) (v : ℤ)
      → schema_version_of env json raw ≡ ok v
      → leb_ℤ current v ≡ false
      → Ends (migrate_loop env json 2 raw v)
  unfolding migrate_loop migration
  from_behind header raw (pos zero) o l = first_turn header raw o
  from_behind header raw (pos (suc n)) o l = absurd (ground (arith, l))
  from_behind header raw (negsuc n) o l = (
    err (join (sentinel migration_failed) (sentinel no_migrator)),
    rw (migrate_loop, l, migration) refl,
    tt,
  )

  -- Suppose that JSON reads back the schema version that it wrote. Then two turns of the loop are
  -- enough: Migrate ends, with an error or with a text that Validate accepts and that a second
  -- Migrate leaves as it is.
  pub migrate-Ends : (header : ReadsHeader) (raw : Text) → Ends (migrate env json 2 raw)
  unfolding migrate
  migrate-Ends header raw = elim (Result-cases (schema_version_of env json raw)) [
    | inr (e, q) ↦ (err e, rw (migrate, q) refl, tt)
    | inl (v, q) ↦ elim (Bool-cases (ltb_ℤ current v)) [
      | inl l ↦ (err (wrap (sentinel config_schema_mismatch)), rw (migrate, q, l) refl, tt)
      | inr l ↦ elim (Bool-cases (leb_ℤ current v)) [
        | inr b ↦
            let o : migrate env json 2 raw ≡ migrate_loop env json 2 raw v =
              rw (migrate, q, l, b) refl in
            rw o (from_behind header raw v q b)
        | inl b ↦
            let c : v ≡ current = ground (arith, l, b) in
            elim (Option-cases (validate env raw)) [
              | inr (e, p) ↦ (err e, rw (migrate, q, l, b, p) refl, tt)
              | inl p ↦
                  (ok raw, rw (migrate, q, l, b, p) refl, (p, kept raw (q ∙ ap (λ x. ok x) c) p))
            ]
      ]
    ]
  ]
