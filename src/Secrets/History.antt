-- ===== src/Secrets/History.antt =====
-- Sequences of calls on the vault of secrets/fallback.go.
use webox.Prelude.{
  ◌≡◌, refl, sym, ap, subst, List, [], ◌∷◌, Option, none, some, if◌then◌else◌, ltb, length,
  Option-cases, Bool-cases, inl, inr,
}
use webox.Prelude.Text.{
  Text, text_eq, text_eq_sound, lookup, insert, erase, lookup-insert, lookup-erase,
}
use webox.Errors.{Error}
use webox.Files.{Disk}
use webox.Secrets.File.{Outside, salt_size, persist_locked}
use webox.Secrets.Vault.{FallbackBackend, set_secret, delete_secret, rotate_password, rotate_key}
use webox.Secrets.Saved.{Relies}
use webox.Secrets.Opened.{Keyed, Reopens, persist_locked-file}

pub data Call : Type 0 where
  put : Text → Text → Call
  remove : Text → Call
  rotate : Text → Call

-- What a call makes of the password and of the entries by their names.
abbrev pub password_after : Call → Text → Text
password_after (put key value) p = p
password_after (remove key) p = p
password_after (rotate password) p = password

abbrev pub view_after : Call → (Text → Option Text) → Text → Option Text
view_after (put key value) f j = if text_eq key j then some value else f j
view_after (remove key) f j = if text_eq key j then none else f j
view_after (rotate password) f j = f j

abbrev pub password_of : List Call → Text → Text
password_of [] p = p
password_of (c ∷ cs) p = password_of cs (password_after c p)

abbrev pub view_of : List Call → (Text → Option Text) → Text → Option Text
view_of [] f = f
view_of (c ∷ cs) f = view_of cs (view_after c f)

abbrev pub view : FallbackBackend → Text → Option Text
view b j = lookup j b.entries

absent :
    (key j : Text) (m : List (Text × Text))
    → lookup key m ≡ none
    → lookup j m ≡ (if text_eq key j then none else lookup j m)
absent key j m q = elim (Bool-cases (text_eq key j)) [
  | inl t ↦ rw (t, sym (text_eq_sound key j t)) q
  | inr t ↦ rw t refl
]

module _ {W : Type 0} (env : Outside W) where
  unfoldable pub run_call :
      Call → FallbackBackend → Disk W → Option Error × FallbackBackend × Disk W
  run_call (put key value) b d = set_secret env key value b d
  run_call (remove key) b d = delete_secret env key b d
  run_call (rotate password) b d = rotate_password env password b d

  -- A sequence of calls up to the first error.
  unfoldable pub run_calls :
      List Call → FallbackBackend → Disk W → Option Error × FallbackBackend × Disk W
  unfolding run_call
  run_calls [] b d = (none, b, d)
  run_calls (c ∷ cs) b d =
      let done = run_call c b d in
      let rest = run_calls cs done.1 done.2 in elim done.0 [ some e ↦ done | none ↦ rest ]

  -- A vault in memory that its password and the file on disk give back.
  abbrev pub IsSaved : Text → FallbackBackend → Disk W → Type 0
  IsSaved password b d = Keyed env password b × Reopens env password b d

  -- The vault under a password and a salt.
  abbrev pub under : Text → Text → List (Text × Text) → FallbackBackend
  under password salt m = record {
    key = some (env.derive_key password salt);
    salt = salt;
    entries = m;
  }

  pub Keyed-under :
      (password : Text) (b : FallbackBackend)
      → Keyed env password b
      → under password b.salt b.entries ≡ b
  Keyed-under password b h =
      ap (λ k. record { key = k; salt = b.salt; entries = b.entries }) (sym h.0)

  persist_locked-IsSaved :
      (r : Relies env) (password salt : Text) (m : List (Text × Text)) (d : Disk W)
      → length salt ≡ salt_size
      → (persist_locked env (env.derive_key password salt) salt m d).0 ≡ none
      → IsSaved password
          (under password salt m)
          (persist_locked env (env.derive_key password salt) salt m d).1
  persist_locked-IsSaved r password salt m d a o =
      elim (persist_locked-file env r password salt m d a) [
        | inl s ↦ ((refl, a), s)
        | inr (f, e, q) ↦ absurd (cc (o, q))
      ]

  -- A call that succeeded.
  abbrev pub Done : Call → Text → FallbackBackend → Option Error × FallbackBackend × Disk W → Type 0
  Done c password b out =
      out.0 ≡ none
      → IsSaved (password_after c password) out.1 out.2
        × ((j : Text) → view out.1 j ≡ view_after c (view b) j)

  pub put-Done :
      (r : Relies env) (password salt : Text) (m : List (Text × Text)) (key value : Text)
      (d : Disk W)
      → length salt ≡ salt_size
      → Done
          (put key value)
          password
          (under password salt m)
          (set_secret env key value (under password salt m) d)
  unfolding set_secret
  put-Done r password salt m key value d a o = (
    persist_locked-IsSaved r password salt (insert key value m) d a o,
    λ j. lookup-insert key j value m,
  )

  remove-Done :
      (r : Relies env) (password salt : Text) (m : List (Text × Text)) (key : Text) (d : Disk W)
      → IsSaved password (under password salt m) d
      → Done
          (remove key)
          password
          (under password salt m)
          (delete_secret env key (under password salt m) d)
  unfolding delete_secret
  remove-Done r password salt m key d s = elim (Option-cases (lookup key m)) [
    | inl q ↦ rw (delete_secret, q) (λ o. (s, λ j. absent key j m q))
    | inr (v, q) ↦
        rw (delete_secret, q)
          (λ o. (
            persist_locked-IsSaved r password salt (erase key m) d s.0.1 o,
            λ j. lookup-erase key j m,
          ))
  ]

  rotate_key-Done :
      (r : Relies env) (password salt : Text) (m : List (Text × Text)) (new : Text) (d : Disk W)
      → Done
          (rotate new)
          password
          (under password salt m)
          (rotate_key env new (under password salt m) d)
  unfolding rotate_key
  rotate_key-Done r password salt m new d =
      let fresh : Text × W = env.read_random salt_size d.world in
      let saved : Option Error × Disk W =
        persist_locked env (env.derive_key new fresh.0) fresh.0 m (record d { world = fresh.1 }) in
      elim (Option-cases saved.0) [
        | inl q ↦
            rw (rotate_key, q)
              (λ o. (
                persist_locked-IsSaved r new fresh.0 m (record d { world = fresh.1 })
                    (r.fills salt_size d.world) q,
                λ j. refl,
              ))
        | inr (e, q) ↦ rw (rotate_key, q) (λ o. absurd (cc o))
      ]

  rotate-Done :
      (r : Relies env) (password salt : Text) (m : List (Text × Text)) (new : Text) (d : Disk W)
      → Done
          (rotate new)
          password
          (under password salt m)
          (rotate_password env new (under password salt m) d)
  unfolding rotate_password
  rotate-Done r password salt m new d = elim (Bool-cases (ltb (length new) 12)) [
    | inl q ↦ rw (rotate_password, q) (λ o. absurd (cc o))
    | inr q ↦ rw (rotate_password, q) (rotate_key-Done r password salt m new d)
  ]

  pub run_call-Done :
      (r : Relies env) (password : Text) (c : Call) (b : FallbackBackend) (d : Disk W)
      → IsSaved password b d
      → Done c password b (run_call c b d)
  unfolding run_call
  run_call-Done r password c b d s =
      subst (λ (u : FallbackBackend). IsSaved password u d → Done c password u (run_call c u d))
        (Keyed-under password b s.0) (under-Done c) s
    where
      under-Done :
          (c : Call)
          → IsSaved password (under password b.salt b.entries) d
          → Done c password
              (under password b.salt b.entries)
              (run_call c (under password b.salt b.entries) d)
      under-Done (put key value) t = put-Done r password b.salt b.entries key value d s.0.1
      under-Done (remove key) t = remove-Done r password b.salt b.entries key d t
      under-Done (rotate new) t = rotate-Done r password b.salt b.entries new d
