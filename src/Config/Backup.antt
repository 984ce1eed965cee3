-- ===== src/Config/Backup.antt =====
-- What loading and saving leave of the configuration file.
use webox.Prelude.{
  ◌≡◌, refl, sym, ap, subst, ◌∙◌, [], ◌∷◌, ◌++◌, Option, none, some, Option-cases, Bool-cases, inl,
  inr, ◌⊎◌,
}
use webox.Prelude.Int.{ltb_ℤ}
use webox.Prelude.Text.{Text}
use webox.Files.{attempt, replaced, Outcome, attempt-Outcome}
use webox.Errors.{ok-injective, Error, Result, ok, Result-cases}
use webox.Config.Schema.{Checks, validate}
use webox.Config.Migrate.{Config, Codec, current, schema_version_of}
use webox.Config.Store.{
  Store, ConfigDir, marshal_config, synced_dir, temp_renamed, temp_synced, temp_written,
  temp_opened, write_config, locked_save, save, backup_original, kept_backup, backup_synced,
  backup_written, with_backup, migrated_text, save_migrated, load_old, load_raw, load,
}

-- A choice on a file both ways of which have a property.
on_file :
    {A : Type 0} (f : Option Text) (P : A → Type 0) (x : A) (y : Text → A)
    → (f ≡ none → P x)
    → ((raw : Text) → f ≡ some raw → P (y raw))
    → P (elim f as (λ _. A) [ none ↦ x | some raw ↦ y raw ])
on_file none P x y h g = h refl
on_file (some raw) P x y h g = g raw refl

module _ {P Q S W : Type 0} (env : Checks) (json : Codec P Q S)
    (store : Store (Config P Q S) W) where
  write_config-Outcome : (raw : Text) (w : W) → Outcome raw (write_config env json store raw w)
  unfolding write_config
  write_config-Outcome raw =
      attempt-Outcome raw store.temp_path (λ w. w) (temp_opened env json store raw)
        (attempt-Outcome raw store.open_temp (λ w. w) (temp_written env json store raw)
          (attempt-Outcome raw (store.write_temp raw) store.close_temp
            (temp_synced env json store raw)
            (attempt-Outcome raw store.sync_temp store.close_temp (temp_renamed env json store raw)
              (λ w.
                attempt-Outcome raw store.rename store.remove_temp (synced_dir env json store raw)
                  (λ v. inl refl) (store.close_temp w)))))

  -- No new file, or one that Validate accepts.
  abbrev Sound : Option Text → Type 0
  Sound f = (f ≡ none) ⊎ ((new : Text) × (f ≡ some new) × (validate env new ≡ none))

  marshal_config-valid :
      (cfg : Config P Q S) (raw : Text)
      → marshal_config env json store cfg ≡ ok raw
      → validate env raw ≡ none
  unfolding marshal_config
  marshal_config-valid cfg raw = elim (Result-cases (json.marshal_indent cfg)) [
    | inr (e, q) ↦ rw (marshal_config, q) (λ h. absurd (cc h))
    | inl (t, q) ↦ elim (Option-cases (validate env (t ++ 10 ∷ []))) [
      | inr (e, v) ↦ rw (marshal_config, q, v) (λ h. absurd (cc h))
      | inl v ↦
          rw (marshal_config, q, v) (λ h. subst (λ x. validate env x ≡ none) (ok-injective h) v)
    ]
  ]

  locked_save-Sound : (cfg : Config P Q S) (w : W) → Sound (locked_save env json store cfg w).1
  unfolding locked_save
  locked_save-Sound cfg w = elim (Option-cases (store.lock_exclusive w).0) [
    | inr (e, q) ↦ rw (locked_save, q) (inl refl)
    | inl q ↦ elim (Result-cases (marshal_config env json store cfg)) [
      | inr (e, m) ↦ rw (locked_save, q, m) (inl refl)
      | inl (raw, m) ↦
          rw (locked_save, q, m)
            (elim (write_config-Outcome raw (store.lock_exclusive w).1) [
              | inl o ↦ inr (raw, o, marshal_config-valid cfg raw m)
              | inr o ↦ inl o.0
            ])
    ]
  ]

  -- The file as it was, or a new one that Validate accepts; the backups as they were.
  abbrev Saves : ConfigDir W → ConfigDir W → Type 0
  Saves d d' =
      ((d'.file ≡ d.file) ⊎ ((new : Text) × (d'.file ≡ some new) × (validate env new ≡ none)))
      × (d'.backups ≡ d.backups)

  replaced-Saves :
      (f before : Option Text)
      → Sound f
      → (replaced f before ≡ before)
        ⊎ ((new : Text) × (replaced f before ≡ some new) × (validate env new ≡ none))
  replaced-Saves f before s = elim s [
    | inl q ↦ rw q (inl refl)
    | inr (new, q, v) ↦ rw q (inr (new, refl, v))
  ]

  attempt-Sound :
      (op : W → Option Error × W) (next : W → Option Error × Option Text × W) (w : W)
      → ((v : W) → Sound (next v).1)
      → Sound (attempt op (λ w. w) next w).1
  attempt-Sound op next w h = elim (Option-cases (op w).0) [
    | inl q ↦ rw (attempt, q) (h (op w).1)
    | inr (e, q) ↦ rw (attempt, q) (inl refl)
  ]

  save-Saves : (cfg : Config P Q S) (d : ConfigDir W) → Saves d (save env json store cfg d).1
  unfolding save
  save-Saves cfg d = elim (Option-cases (store.ctx_err d.world).0) [
    | inr (e, q) ↦ rw (save, q) (inl refl, refl)
    | inl q ↦
        let ended = (store.ctx_err d.world).1 in
        let f = (attempt store.mkdir_all (λ w. w) (locked_save env json store cfg) ended).1 in
        rw (save, q)
          (
            replaced-Saves f d.file (
                attempt-Sound store.mkdir_all (locked_save env json store cfg) ended
                  (locked_save-Sound cfg)),
            refl,
          )
  ]

  backup_original-backups :
      (raw : Text) (d : ConfigDir W)
      → (backup_original env json store raw d).0 ≡ none
      → (backup_original env json store raw d).1.backups ≡ d.backups ++ raw ∷ []
  unfolding backup_original
  backup_original-backups raw d h =
      elim (attempt-Outcome raw store.open_backup (λ w. w) (backup_written env json store raw)
        (attempt-Outcome raw (store.write_backup raw) store.close_backup
          (backup_synced env json store raw)
          (attempt-Outcome raw store.sync_backup store.close_backup (kept_backup env json store raw)
            (λ w. inl refl)))
        d.world) [
          | inl q ↦ ap (λ f. with_backup env json store f d.backups) q
          | inr (q, e, o) ↦ absurd (cc (o, h))
        ]

  backup_original-file :
      (raw : Text) (d : ConfigDir W) → (backup_original env json store raw d).1.file ≡ d.file
  unfolding backup_original
  backup_original-file raw d = refl

  -- The file as it was, or a new one that Validate accepts, with the old one kept as a backup.
  abbrev pub Safe : ConfigDir W → ConfigDir W → Type 0
  Safe d d' =
      (d'.file ≡ d.file)
      ⊎ ((raw : Text) × (new : Text) × (d.file ≡ some raw)
          × (d'.file ≡ some new)
          × (validate env new ≡ none)
          × (d'.backups ≡ d.backups ++ raw ∷ []))

  -- A save behind a backup.
  saved-Safe :
      (raw : Text) (d b d' : ConfigDir W)
      → d.file ≡ some raw
      → b.file ≡ d.file
      → b.backups ≡ d.backups ++ raw ∷ []
      → Saves b d'
      → Safe d d'
  saved-Safe raw d b d' f same kept s = elim s.0 [
    | inl q ↦ inl (q ∙ same)
    | inr (new, q, v) ↦ inr (raw, new, f, q, v, s.1 ∙ kept)
  ]

  save_migrated-world :
      (cfg : Config P Q S) (d : ConfigDir W)
      → (save_migrated env json store cfg d).1 ≡ (save env json store cfg d).1
  unfolding save_migrated
  save_migrated-world cfg d = elim (Option-cases (save env json store cfg d).0) [
    | inl q ↦ rw (save_migrated, q) refl
    | inr (e, q) ↦ rw (save_migrated, q) refl
  ]

  load_old-Safe :
      (raw : Text) (d : ConfigDir W) → d.file ≡ some raw → Safe d (load_old env json store raw d).1
  unfolding load_old
  load_old-Safe raw d f = elim (Result-cases (migrated_text env json store raw)) [
    | inr (e, q) ↦ rw (load_old, q) (inl refl)
    | inl (text, q) ↦
        let b : ConfigDir W = (backup_original env json store raw d).1 in
        elim (Option-cases (backup_original env json store raw d).0) [
          | inr (e, o) ↦ rw (load_old, q, o) (inl (backup_original-file raw d))
          | inl o ↦ elim (Result-cases (store.decode_config text)) [
            | inr (e, p) ↦ rw (load_old, q, o, p) (inl (backup_original-file raw d))
            | inl (cfg, p) ↦
                let s : Saves b (save_migrated env json store cfg b).1 =
                  subst (λ (u : ConfigDir W). Saves b u) (sym (save_migrated-world cfg b))
                    (save-Saves cfg b) in
                rw (load_old, q, o, p)
                  (saved-Safe raw d b (save_migrated env json store cfg b).1 f
                    (backup_original-file raw d) (backup_original-backups raw d o) s)
          ]
        ]
  ]

  load_raw-Safe :
      (raw : Text) (d : ConfigDir W) → d.file ≡ some raw → Safe d (load_raw env json store raw d).1
  unfolding load_raw
  load_raw-Safe raw d f = elim (Result-cases (schema_version_of env json raw)) [
    | inr (e, q) ↦ rw (load_raw, q) (inl refl)
    | inl (v, q) ↦ elim (Bool-cases (ltb_ℤ current v)) [
      | inl l ↦ rw (load_raw, q, l) (inl refl)
      | inr l ↦ elim (Bool-cases (ltb_ℤ v current)) [
        | inl b ↦ rw (load_raw, q, l, b) (load_old-Safe raw d f)
        | inr b ↦ rw (load_raw, q, l, b) (inl refl)
      ]
    ]
  ]

  -- Whatever fails, Load leaves the configuration file as it was, or it has replaced it by one that
  -- Validate accepts, and then the old file is kept as the newest backup.
  pub load-Safe : (d : ConfigDir W) → Safe d (load env json store d).1
  unfolding load
  load-Safe d = elim (Option-cases (store.ctx_err d.world).0) [
    | inr (e, q) ↦ rw (load, q) (inl refl)
    | inl q ↦
        let read = store.read_error (store.ctx_err d.world).1 in
        elim (Option-cases read.0) [
          | inr (e, r) ↦ rw (load, q, r) (inl refl)
          | inl r ↦
              let d' : ConfigDir W = record d { world = read.1 } in
              rw (load, q, r)
                (on_file d.file (λ (out : Result (Config P Q S) × ConfigDir W). Safe d out.1) _ _
                  (λ f. inl refl) (λ raw f. load_raw-Safe raw d' f))
        ]
  ]
