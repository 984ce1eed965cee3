-- ===== src/Secrets/Opened.antt =====
-- What an opened vault and a saved file are.
use webox.Prelude.{
  ◌≡◌, refl, ap, ℕ, zero, suc, ◌≤◌, Bool, true, false, List, [], ◌∷◌, some, if◌then◌else◌, ltb,
  arith, take, drop, length, Option-cases, Bool-cases, inl, inr, ◌⊎◌, ◌==◌,
}
use webox.Prelude.Int.{leb_ℤ}
use webox.Prelude.Text.{Text, lookup}
use webox.Errors.{Error, Result, ok, err, Result-cases, wrap}
use webox.Files.{Disk}
use webox.Secrets.File.{
  Outside, VaultPayload, vault_schema, salt_size, nonce_size, persist_locked, frame, version_v1,
}
use webox.Secrets.Vault.{
  FallbackBackend, load_fallback, load_version, load_sealed, load_plaintext, load_payload,
  init_fallback, new_fallback,
}
use webox.Secrets.Saved.{Relies, load-frame, write_vault_file-file}

module _ {W : Type 0} (env : Outside W) where
  -- A vault under the key of a password and of its salt.
  abbrev pub Keyed : Text → FallbackBackend → Type 0
  Keyed password b = (b.key ≡ some (env.derive_key password b.salt)) × (length b.salt ≡ salt_size)

  -- A file that opens to a vault: to its key and salt, and to entries with the same values under the
  -- same names.
  abbrev pub Reopens : Text → FallbackBackend → Disk W → Type 0
  Reopens password b d =
      (raw : Text) × (m : List (Text × Text)) × (d.file ≡ some raw)
      × (load_fallback env password raw ≡ ok (record b { entries = m }))
      × ((k : Text) → lookup k m ≡ lookup k b.entries)

  pub persist_locked-file :
      (r : Relies env) (password salt : Text) (m : List (Text × Text)) (d : Disk W)
      → length salt ≡ salt_size
      → Reopens password
          (record { key = some (env.derive_key password salt); salt = salt; entries = m })
          (persist_locked env (env.derive_key password salt) salt m d).1
        ⊎ (((persist_locked env (env.derive_key password salt) salt m d).1.file ≡ d.file)
            × (e : Error) × ((persist_locked env (env.derive_key password salt) salt m d).0
                ≡ some e))
  unfolding persist_locked
  persist_locked-file r password salt m d a =
      let key = env.derive_key password salt in
      let random = env.read_random nonce_size d.world in
      elim (Result-cases (env.marshal (record { schema = vault_schema; entries = some m }))) [
        | inr (e, q) ↦ rw (persist_locked, q) (inr (refl, wrap e, refl))
        | inl (t, q) ↦ elim (Option-cases (env.new_gcm key)) [
          | inr (e, p) ↦ rw (persist_locked, q, p) (inr (refl, wrap e, refl))
          | inl p ↦
              let blob = frame salt random.0 (env.gcm_seal key random.0 t) in
              let read = r.decodes m t q in
              rw (persist_locked, q, p)
                (elim (write_vault_file-file env blob (record d { world = random.1 })) [
                  | inl f ↦ inl (
                    blob,
                    read.0,
                    f,
                    load-frame env r password salt random.0 t read.0 a (r.fills nonce_size d.world)
                        p read.1,
                    read.2,
                  )
                  | inr f ↦ inr f
                ])
        ]
      ]

  abbrev pub Opened : Text → Result FallbackBackend → Type 0
  Opened password (ok b) = Keyed password b
  Opened password (err e) = Unit

  if-Opened :
      (password : Text) (t : Bool) (x y : Result FallbackBackend)
      → Opened password x
      → Opened password y
      → Opened password (if t then x else y)
  if-Opened password true x y h g = h
  if-Opened password false x y h g = g

  load_payload-Opened :
      (password salt : Text) (payload : VaultPayload)
      → length salt ≡ salt_size
      → Opened password (load_payload (env.derive_key password salt) salt payload)
  unfolding load_payload
  load_payload-Opened password salt payload a =
      if-Opened password (leb_ℤ payload.schema vault_schema) _ _
        (if-Opened password (leb_ℤ vault_schema payload.schema) _ _ (refl, a) tt) tt

  load_sealed-Opened :
      (password salt rest : Text)
      → length salt ≡ salt_size
      → Opened password (load_sealed env (env.derive_key password salt) salt rest)
  unfolding load_sealed load_plaintext
  load_sealed-Opened password salt rest a =
      let key = env.derive_key password salt in
      elim (Option-cases (env.new_gcm key)) [
        | inr (e, q) ↦ rw (load_sealed, q) tt
        | inl q ↦
            elim (Option-cases (env.gcm_open key (take nonce_size rest) (drop nonce_size rest))) [
              | inl o ↦ rw (load_sealed, q, o) tt
              | inr (text, o) ↦ elim (Result-cases (env.unmarshal text)) [
                | inr (e, u) ↦ rw (load_sealed, q, o, load_plaintext, u) tt
                | inl (payload, u) ↦
                    rw (load_sealed, q, o, load_plaintext, u)
                      (load_payload-Opened password salt payload a)
              ]
            ]
      ]

  length-take : (n : ℕ) (xs : Text) → n ≤ length xs → length (take n xs) ≡ n
  length-take zero xs h = refl
  length-take (suc n) [] h = absurd (omega (arith, h))
  length-take (suc n) (x ∷ xs) h = ap suc (length-take n xs (omega (arith, h)))

  load_fallback-Opened : (password raw : Text) → Opened password (load_fallback env password raw)
  unfolding load_fallback load_version
  load_fallback-Opened password [] = tt
  load_fallback-Opened password (version ∷ body) = elim (Bool-cases (ltb (length body) 44)) [
    | inl q ↦ rw (load_fallback, q) tt
    | inr q ↦
        rw (load_fallback, q)
          (if-Opened password (version == version_v1) _ _
            (load_sealed-Opened password (take salt_size body) (drop salt_size body)
              (length-take salt_size body (ground (arith, q))))
            tt)
  ]

  -- Every vault that new_fallback gives is under the key of the password and of its salt.
  pub new_fallback-Opened :
      (r : Relies env) (password : Text) (d : Disk W)
      → Opened password (new_fallback env password d).0
  unfolding new_fallback init_fallback
  new_fallback-Opened r password d = elim (Bool-cases (ltb (length password) 12)) [
    | inl q ↦ rw (new_fallback, q) tt
    | inr q ↦ elim (Option-cases (env.read_error d.world).0) [
      | inr (e, p) ↦ rw (new_fallback, q, p) tt
      | inl p ↦ elim (Option-cases d.file) [
        | inl f ↦
            rw (new_fallback, q, p, f, init_fallback)
              (refl, r.fills salt_size (env.read_error d.world).1)
        | inr (raw, f) ↦ rw (new_fallback, q, p, f) (load_fallback-Opened password raw)
      ]
    ]
  ]
