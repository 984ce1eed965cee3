-- ===== src/Secrets/Vault.antt =====
-- secrets/fallback.go: FallbackBackend. Each operation holds the vault's mutex throughout.
use webox.Prelude.{
  ℕ, ◌+◌, List, [], ◌∷◌, Option, none, some, if◌then◌else◌, ltb, ◌==◌, take, drop, length,
}
use webox.Prelude.Int.{leb_ℤ}
use webox.Prelude.Text.{Text, lookup, insert, erase}
use webox.Errors.{
  Error, sentinel, wrap, join, Result, ok, err, secret_not_found, fallback_locked, auth_failed,
  corrupted_secrets, master_password_too_short,
}
use webox.Files.{Disk}
use webox.Secrets.File.{
  Outside, VaultPayload, vault_schema, salt_size, nonce_size, gcm_tag_size, version_v1,
  persist_locked,
}

abbrev pub master_password_min_len : ℕ
master_password_min_len = 12

-- No key stands for a vault that was closed. Memory of keys that is wiped is left out.
pub record FallbackBackend : Type 0 where
  pub key : Option Text
  pub salt : Text
  pub entries : List (Text × Text)

abbrev pub corrupted : Error
corrupted = wrap (sentinel corrupted_secrets)

unfoldable pub get : Text → FallbackBackend → Result Text
get key b = elim b.key [
  | none ↦ err (sentinel fallback_locked)
  | some k ↦ elim (lookup key b.entries) [
    | none ↦ err (sentinel secret_not_found)
    | some value ↦ ok value
  ]
]

unfoldable pub close : FallbackBackend → FallbackBackend
close b = record b { key = none; entries = [] }

-- The plaintext of an opened file.
unfoldable pub load_payload : Text → Text → VaultPayload → Result FallbackBackend
load_payload key salt payload =
    let same = leb_ℤ payload.schema vault_schema in
    let same' = leb_ℤ vault_schema payload.schema in
    let entries = elim payload.entries as (λ x. List (Text × Text)) [ none ↦ [] | some m ↦ m ] in
    if same
    then if same'
      then ok (record { key = some key; salt = salt; entries = entries })
      else err corrupted
    else err corrupted

module _ {W : Type 0} (env : Outside W) where
  unfoldable pub init_fallback : Text → Disk W → FallbackBackend × Disk W
  init_fallback password d =
      let salt = env.read_random salt_size d.world in
      (
        record { key = some (env.derive_key password salt.0); salt = salt.0; entries = [] },
        record d { world = salt.1 },
      )

  unfoldable pub load_plaintext : Text → Text → Text → Result FallbackBackend
  unfolding load_payload
  load_plaintext key salt plaintext = elim (env.unmarshal plaintext) [
    | err e ↦ err (join (sentinel corrupted_secrets) e)
    | ok payload ↦ load_payload key salt payload
  ]

  -- Behind the header, the salt and the nonce.
  unfoldable pub load_sealed : Text → Text → Text → Result FallbackBackend
  unfolding load_plaintext
  load_sealed key salt rest = elim (env.new_gcm key) [
    | some e ↦ err (wrap e)
    | none ↦ elim (env.gcm_open key (take nonce_size rest) (drop nonce_size rest)) [
      | none ↦ err (sentinel auth_failed)
      | some plaintext ↦ load_plaintext key salt plaintext
    ]
  ]

  unfoldable pub load_version : Text → ℕ → Text → Result FallbackBackend
  unfolding load_sealed
  load_version password version body =
      let salt = take salt_size body in
      let loaded = load_sealed (env.derive_key password salt) salt (drop salt_size body) in
      if version == version_v1 then loaded else err corrupted

  unfoldable pub load_fallback : Text → Text → Result FallbackBackend
  unfolding load_version
  load_fallback password [] = err corrupted
  load_fallback password (version ∷ body) =
      if ltb (length body) (salt_size + nonce_size + gcm_tag_size)
      then err corrupted
      else load_version password version body

  unfoldable pub new_fallback : Text → Disk W → Result FallbackBackend × Disk W
  unfolding load_fallback init_fallback
  new_fallback password d =
      let read = env.read_error d.world in
      let d' : Disk W = record d { world = read.1 } in
      if ltb (length password) master_password_min_len
      then (err (wrap (sentinel master_password_too_short)), d)
      else elim read.0 [
        | some e ↦ (err (wrap e), d')
        | none ↦ elim d.file [
          | none ↦ let fresh = init_fallback password d' in (ok fresh.0, fresh.1)
          | some raw ↦ (load_fallback password raw, d')
        ]
      ]

  unfoldable pub set_secret :
      Text → Text → FallbackBackend → Disk W → Option Error × FallbackBackend × Disk W
  set_secret key value b d = elim b.key [
    | none ↦ (some (sentinel fallback_locked), b, d)
    | some k ↦
        let b' : FallbackBackend = record b { entries = insert key value b.entries } in
        let saved = persist_locked env k b.salt b'.entries d in (saved.0, b', saved.1)
  ]

  unfoldable pub delete_secret :
      Text → FallbackBackend → Disk W → Option Error × FallbackBackend × Disk W
  delete_secret key b d = elim b.key [
    | none ↦ (some (sentinel fallback_locked), b, d)
    | some k ↦ elim (lookup key b.entries) [
      | none ↦ (none, b, d)
      | some value ↦
          let b' : FallbackBackend = record b { entries = erase key b.entries } in
          let saved = persist_locked env k b.salt b'.entries d in (saved.0, b', saved.1)
    ]
  ]

  -- RotatePassword behind its two checks.
  unfoldable pub rotate_key :
      Text → FallbackBackend → Disk W → Option Error × FallbackBackend × Disk W
  rotate_key password b d =
      let salt = env.read_random salt_size d.world in
      let key = env.derive_key password salt.0 in
      let b' : FallbackBackend = record b { key = some key; salt = salt.0 } in
      let saved = persist_locked env key salt.0 b.entries (record d { world = salt.1 }) in
      elim saved.0 [ some e ↦ (some e, b, saved.1) | none ↦ (none, b', saved.1) ]

  unfoldable pub rotate_password :
      Text → FallbackBackend → Disk W → Option Error × FallbackBackend × Disk W
  unfolding rotate_key
  rotate_password password b d =
      let rotated = rotate_key password b d in
      if ltb (length password) master_password_min_len
      then (some (wrap (sentinel master_password_too_short)), b, d)
      else elim b.key [ none ↦ (some (sentinel fallback_locked), b, d) | some k ↦ rotated ]
