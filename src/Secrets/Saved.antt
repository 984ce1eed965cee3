-- ===== src/Secrets/Saved.antt =====
-- A vault that is saved and opened again.
use webox.Prelude.{
  ◌≡◌, refl, sym, ap, subst, ◌∙◌, ℕ, zero, suc, ◌≤◌, false, List, [], ◌∷◌, ◌++◌, none, some, ltb,
  arith, take, drop, length, length-append, Option-cases, inl, inr, ◌⊎◌,
}
use webox.Prelude.Text.{Text, lookup}
use webox.Errors.{Error, ok}
use webox.Files.{Outcome, attempt-Outcome, replaced, Disk}
use webox.Secrets.File.{
  close_and_remove, temp_written, temp_synced, temp_closed, temp_renamed, synced_dir, Outside,
  vault_schema, salt_size, nonce_size, gcm_tag_size, write_vault_file, locked_write, replace_file,
  frame, version_v1,
}
use webox.Secrets.Vault.{load_fallback, load_version, load_sealed, load_plaintext, load_payload}

-- What the vault relies on: AES-GCM opens what it sealed under the same key and nonce and adds its
-- tag, the random source fills the buffer, and JSON gives a map back with the same values under the
-- same keys, in whatever order.
pub record Relies {W : Type 0} (env : Outside W) : Type 0 where
  pub opens : (k n p : Text) → env.gcm_open k n (env.gcm_seal k n p) ≡ some p
  pub tagged : (k n p : Text) → gcm_tag_size ≤ length (env.gcm_seal k n p)
  pub fills : (n : ℕ) (w : W) → length (env.read_random n w).0 ≡ n
  pub decodes :
      (m : List (Text × Text)) (t : Text)
      → env.marshal (record { schema = vault_schema; entries = some m }) ≡ ok t
      → (m' : List (Text × Text)) × (env.unmarshal t
          ≡ ok (record { schema = vault_schema; entries = some m' }))
        × ((k : Text) → lookup k m' ≡ lookup k m)

take-prefix : {A : Type 0} (xs ys : List A) (n : ℕ) → length xs ≡ n → take n (xs ++ ys) ≡ xs
take-prefix [] ys zero h = refl
take-prefix [] ys (suc n) h = absurd (omega (arith, h))
take-prefix (x ∷ xs) ys zero h = absurd (omega (arith, h))
take-prefix (x ∷ xs) ys (suc n) h = ap (◌∷◌ x) (take-prefix xs ys n (omega (arith, h)))

drop-prefix : {A : Type 0} (xs ys : List A) (n : ℕ) → length xs ≡ n → drop n (xs ++ ys) ≡ ys
drop-prefix [] ys zero h = refl
drop-prefix [] ys (suc n) h = absurd (omega (arith, h))
drop-prefix (x ∷ xs) ys zero h = absurd (omega (arith, h))
drop-prefix (x ∷ xs) ys (suc n) h = drop-prefix xs ys n (omega (arith, h))

module _ {W : Type 0} (env : Outside W) (r : Relies env) where
  load_sealed-frame :
      (key salt nonce t : Text) (m : List (Text × Text))
      → length nonce ≡ nonce_size
      → env.new_gcm key ≡ none
      → env.unmarshal t ≡ ok (record { schema = vault_schema; entries = some m })
      → load_sealed env key salt (nonce ++ env.gcm_seal key nonce t)
        ≡ ok (record { key = some key; salt = salt; entries = m })
  unfolding load_sealed load_plaintext load_payload
  load_sealed-frame key salt nonce t m b c d =
      let sealed = env.gcm_seal key nonce t in
      rw
        (
          load_sealed,
          c,
          take-prefix nonce sealed nonce_size b,
          drop-prefix nonce sealed nonce_size b,
          r.opens key nonce t,
          load_plaintext,
          d,
          load_payload,
        )
        refl

  load_version-prefix :
      (password salt rest : Text)
      → length salt ≡ salt_size
      → load_version env password version_v1 (salt ++ rest)
        ≡ load_sealed env (env.derive_key password salt) salt rest
  unfolding load_version
  load_version-prefix password salt rest a =
      subst
        (λ p.
          load_sealed env (env.derive_key password p) p (drop salt_size (salt ++ rest))
          ≡ load_sealed env (env.derive_key password salt) salt rest)
        (sym (take-prefix salt rest salt_size a))
        (ap (load_sealed env (env.derive_key password salt) salt)
          (drop-prefix salt rest salt_size a))

  -- The frame of a file is read back.
  pub load-frame :
      (password salt nonce t : Text) (m : List (Text × Text))
      → length salt ≡ salt_size
      → length nonce ≡ nonce_size
      → env.new_gcm (env.derive_key password salt) ≡ none
      → env.unmarshal t ≡ ok (record { schema = vault_schema; entries = some m })
      → load_fallback env password
          (frame salt nonce (env.gcm_seal (env.derive_key password salt) nonce t))
        ≡ ok (record { key = some (env.derive_key password salt); salt = salt; entries = m })
  unfolding load_fallback frame
  load-frame password salt nonce t m a b c d =
      let key = env.derive_key password salt in
      let sealed = env.gcm_seal key nonce t in
      let long : ltb (length (salt ++ (nonce ++ sealed))) 44 ≡ false = ground (
        arith,
        a,
        b,
        r.tagged key nonce t,
        length-append salt (nonce ++ sealed),
        length-append nonce sealed,
      ) in
      rw (load_fallback, long)
        (load_version-prefix password salt (nonce ++ sealed) a
          ∙ load_sealed-frame key salt nonce t m b c d)

module _ {W : Type 0} (env : Outside W) where
  replace_file-Outcome : (blob : Text) (w : W) → Outcome blob (replace_file env blob w)
  unfolding replace_file
  replace_file-Outcome blob =
      attempt-Outcome blob env.open_temp (λ w. w) (temp_written env blob)
        (attempt-Outcome blob (env.write_temp blob) (close_and_remove env) (temp_synced env blob) (
          attempt-Outcome blob env.sync_temp (close_and_remove env) (temp_closed env blob) (
            attempt-Outcome blob env.close_temp env.remove_temp (temp_renamed env blob) (
              attempt-Outcome blob env.rename env.remove_temp (synced_dir env blob)
                (λ w. inl refl)))))

  locked_write-Outcome : (blob : Text) (w : W) → Outcome blob (locked_write env blob w)
  unfolding locked_write
  locked_write-Outcome blob w = elim (Option-cases (env.lock_exclusive w).0) [
    | inl q ↦ rw (locked_write, q) (replace_file-Outcome blob (env.lock_exclusive w).1)
    | inr (e, q) ↦ rw (locked_write, q) (inr (refl, e, refl))
  ]

  -- A file is written in full, or an error is given and it is as before.
  pub write_vault_file-file :
      (blob : Text) (d : Disk W)
      → ((write_vault_file env blob d).1.file ≡ some blob)
        ⊎ (((write_vault_file env blob d).1.file ≡ d.file)
            × (e : Error) × ((write_vault_file env blob d).0 ≡ some e))
  unfolding write_vault_file
  write_vault_file-file blob d =
      elim (attempt-Outcome blob env.mkdir_all (λ w. w) (locked_write env blob)
        (locked_write-Outcome blob) d.world) [
          | inl q ↦ inl (ap (λ f. replaced f d.file) q)
          | inr (q, e, p) ↦ inr (ap (λ f. replaced f d.file) q, e, p)
        ]
