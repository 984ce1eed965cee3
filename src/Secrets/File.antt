-- ===== src/Secrets/File.antt =====
-- persistLocked and writeVaultFile of secrets/fallback.go, over a disk.
use webox.Prelude.{ℕ, List, ◌∷◌, ◌++◌, Option, none, some}
use webox.Prelude.Int.{ℤ, pos}
use webox.Prelude.Text.{Text}
use webox.Files.{Disk, attempt, replaced}
use webox.Errors.{Error, wrap, Result, ok, err}

abbrev pub version_v1 : ℕ
version_v1 = 1

abbrev pub salt_size : ℕ
salt_size = 16

abbrev pub nonce_size : ℕ
nonce_size = 12

abbrev pub gcm_tag_size : ℕ
gcm_tag_size = 16

-- The entries are none where the map is nil.
pub record VaultPayload : Type 0 where
  pub schema : ℤ
  pub entries : Option (List (Text × Text))

abbrev pub vault_schema : ℤ
vault_schema = pos 1

-- What the vault reaches the outside by: argon2.IDKey under the parameters of the source, the
-- cipher for a key with its Seal and Open, encoding/json, the random source, and the operations on
-- files, each of which gives an error or none (for a read, an error other than a missing file). A random source that fails stops the program.
pub record Outside (W : Type 0) : Type 0 where
  pub derive_key : Text → Text → Text
  pub new_gcm : Text → Option Error
  pub gcm_seal : Text → Text → Text → Text
  pub gcm_open : Text → Text → Text → Option Text
  pub marshal : VaultPayload → Result Text
  pub unmarshal : Text → Result VaultPayload
  pub read_random : ℕ → W → Text × W
  pub read_error : W → Option Error × W
  pub mkdir_all : W → Option Error × W
  pub lock_exclusive : W → Option Error × W
  pub unlock : W → W
  pub open_temp : W → Option Error × W
  pub write_temp : Text → W → Option Error × W
  pub sync_temp : W → Option Error × W
  pub close_temp : W → Option Error × W
  pub remove_temp : W → W
  pub rename : W → Option Error × W
  pub sync_dir : W → Option Error × W

-- The frame of the file.
unfoldable pub frame : Text → Text → Text → Text
frame salt nonce ciphertext = version_v1 ∷ salt ++ (nonce ++ ciphertext)

module _ {W : Type 0} (env : Outside W) where
  abbrev pub close_and_remove : W → W
  close_and_remove w = env.remove_temp (env.close_temp w).1

  -- Each stage of a write with those behind it. Once the file is moved it is the new one, also if
  -- the directory is not synced.
  abbrev pub synced_dir : Text → W → Option Error × Option Text × W
  synced_dir blob w = let synced = env.sync_dir w in (synced.0, some blob, synced.1)

  abbrev pub temp_renamed : Text → W → Option Error × Option Text × W
  temp_renamed blob = attempt env.rename env.remove_temp (synced_dir blob)

  abbrev pub temp_closed : Text → W → Option Error × Option Text × W
  temp_closed blob = attempt env.close_temp env.remove_temp (temp_renamed blob)

  abbrev pub temp_synced : Text → W → Option Error × Option Text × W
  temp_synced blob = attempt env.sync_temp close_and_remove (temp_closed blob)

  abbrev pub temp_written : Text → W → Option Error × Option Text × W
  temp_written blob = attempt (env.write_temp blob) close_and_remove (temp_synced blob)

  -- The temporary file written, closed and moved into place: with the error what the file at the
  -- path has become, none where it is as before.
  unfoldable pub replace_file : Text → W → Option Error × Option Text × W
  replace_file blob = attempt env.open_temp (λ w. w) (temp_written blob)

  -- writeVaultFile behind the directory and the lock, which is given up at the end.
  unfoldable pub locked_write : Text → W → Option Error × Option Text × W
  unfolding replace_file
  locked_write blob w =
      let held = env.lock_exclusive w in
      let out = replace_file blob held.1 in
      elim held.0 [ some e ↦ (some e, none, held.1) | none ↦ (out.0, out.1, env.unlock out.2) ]

  unfoldable pub write_vault_file : Text → Disk W → Option Error × Disk W
  unfolding locked_write
  write_vault_file blob d =
      let out = attempt env.mkdir_all (λ w. w) (locked_write blob) d.world in
      (out.0, record { file = replaced out.1 d.file; world = out.2 })

  unfoldable pub persist_locked : Text → Text → List (Text × Text) → Disk W → Option Error × Disk W
  unfolding frame write_vault_file
  persist_locked key salt entries d =
      let random = env.read_random nonce_size d.world in
      elim (env.marshal (record { schema = vault_schema; entries = some entries })) [
        | err e ↦ (some (wrap e), d)
        | ok plaintext ↦ elim (env.new_gcm key) [
          | some e ↦ (some (wrap e), d)
          | none ↦
              write_vault_file (frame salt random.0 (env.gcm_seal key random.0 plaintext))
                (record d { world = random.1 })
        ]
      ]
