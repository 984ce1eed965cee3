-- ===== src/Secrets/Rotation.antt =====
-- A RotatePassword of secrets/fallback.go that fails.
use webox.Prelude.{
  ◌≡◌, refl, Option, none, some, Option-cases, Bool-cases, inl, inr, ◌⊎◌, ltb, length,
}
use webox.Prelude.Text.{Text}
use webox.Errors.{Error}
use webox.Files.{Disk}
use webox.Secrets.File.{Outside, salt_size, persist_locked}
use webox.Secrets.Vault.{FallbackBackend, rotate_password, rotate_key}
use webox.Secrets.Saved.{Relies}
use webox.Secrets.Opened.{Reopens, persist_locked-file}

-- A choice on a key that both ways of which have a property.
gate :
    {A : Type 0} (k : Option Text) (P : A → Type 0) (x y : A)
    → P x
    → P y
    → P (elim k as (λ _. A) [ none ↦ x | some z ↦ y ])
gate none P x y h g = h
gate (some z) P x y h g = g

module _ {W : Type 0} (env : Outside W) (r : Relies env) where
  -- The file as it was, or one that opens by a new password.
  abbrev pub Either : Text → FallbackBackend → Disk W → Disk W → Type 0
  Either new b d d' =
      (d'.file ≡ d.file)
      ⊎ ((b' : FallbackBackend) × Reopens env new b' d' × (b'.entries ≡ b.entries))

  abbrev Failed :
      Text → FallbackBackend → Disk W → Error → Option Error × FallbackBackend × Disk W → Type 0
  Failed new b d e out = out.0 ≡ some e → (out.1 ≡ b) × Either new b d out.2

  rotate_key-failed :
      (new : Text) (b : FallbackBackend) (d : Disk W) (e : Error)
      → (rotate_key env new b d).0 ≡ some e
      → ((rotate_key env new b d).1 ≡ b) × Either new b d (rotate_key env new b d).2
  unfolding rotate_key
  rotate_key-failed new b d e =
      let fresh : Text × W = env.read_random salt_size d.world in
      let saved : Option Error × Disk W =
        persist_locked env (env.derive_key new fresh.0) fresh.0 b.entries
          (record d { world = fresh.1 }) in
      let file : Either new b d saved.1 =
        elim (persist_locked-file env r new fresh.0 b.entries (record d { world = fresh.1 })
          (r.fills salt_size d.world)) [
            | inl s ↦ inr (
              record {
                key = some (env.derive_key new fresh.0);
                salt = fresh.0;
                entries = b.entries;
              },
              s,
              refl,
            )
            | inr q ↦ inl q.0
          ] in
      elim (Option-cases saved.0) [
        | inl q ↦ rw (rotate_key, q) (λ o. absurd (cc o))
        | inr (f, q) ↦ rw (rotate_key, q) (λ o. (refl, file))
      ]

  -- A RotatePassword that gives an error leaves the vault in memory as it was. The file is as before,
  -- or it is one that opens by the new password, with the same values under the same names. AES-GCM,
  -- the random source and JSON are taken to do what they document.
  pub rotate_password-failed :
      (new : Text) (b : FallbackBackend) (d : Disk W) (e : Error)
      → (rotate_password env new b d).0 ≡ some e
      → ((rotate_password env new b d).1 ≡ b) × Either new b d (rotate_password env new b d).2
  unfolding rotate_password
  rotate_password-failed new b d e = elim (Bool-cases (ltb (length new) 12)) [
    | inl q ↦ rw (rotate_password, q) (λ o. (refl, inl refl))
    | inr q ↦
        rw (rotate_password, q)
          (gate b.key (λ out. Failed new b d e out) _ _ (λ o. (refl, inl refl))
            (rotate_key-failed new b d e))
  ]
