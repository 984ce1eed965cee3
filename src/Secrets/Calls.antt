-- ===== src/Secrets/Calls.antt =====
-- What a sequence of calls that all succeed leaves on disk.
use webox.Prelude.{◌≡◌, refl, ap, subst, ◌∙◌, List, [], ◌∷◌, Option, none, Option-cases, inl, inr}
use webox.Prelude.Text.{Text}
use webox.Errors.{Error, ok}
use webox.Files.{Disk}
use webox.Secrets.File.{Outside}
use webox.Secrets.Vault.{FallbackBackend, new_fallback, set_secret}
use webox.Secrets.Saved.{Relies}
use webox.Secrets.Opened.{Keyed, new_fallback-Opened, Opened}
use webox.Secrets.History.{
  Call, put, remove, rotate, password_after, view_after, password_of, view_of, view, run_call,
  run_calls, IsSaved, Done, run_call-Done, put-Done, Keyed-under,
}

view_after-same :
    (c : Call) (f g : Text → Option Text)
    → ((j : Text) → f j ≡ g j)
    → (j : Text) → view_after c f j ≡ view_after c g j
view_after-same (put key value) f g h j = rw (h j) refl
view_after-same (remove key) f g h j = rw (h j) refl
view_after-same (rotate password) f g h j = h j

view_of-same :
    (cs : List Call) (f g : Text → Option Text)
    → ((j : Text) → f j ≡ g j)
    → (j : Text) → view_of cs f j ≡ view_of cs g j
view_of-same [] f g h j = h j
view_of-same (c ∷ cs) f g h j =
    view_of-same cs (view_after c f) (view_after c g) (view_after-same c f g h) j

module _ {W : Type 0} (env : Outside W) (r : Relies env) where
  -- The password and the entries that the calls leave, saved.
  abbrev pub Kept :
      List Call → Text → FallbackBackend → Option Error × FallbackBackend × Disk W → Type 0
  Kept cs password b out =
      IsSaved env (password_of cs password) out.1 out.2
      × ((j : Text) → view out.1 j ≡ view_of cs (view b) j)

  -- The calls behind a first one.
  behind :
      (c : Call) (cs : List Call) (password : Text) (b : FallbackBackend) (d : Disk W)
      → Done env c password b (run_call env c b d)
      → ((p : Text) (b' : FallbackBackend) (d' : Disk W)
          → IsSaved env p b' d'
          → (run_calls env cs b' d').0 ≡ none
          → Kept cs p b' (run_calls env cs b' d'))
      → (run_calls env (c ∷ cs) b d).0 ≡ none
      → Kept (c ∷ cs) password b (run_calls env (c ∷ cs) b d)
  unfolding run_calls
  behind c cs password b d done rest =
      let out : Option Error × FallbackBackend × Disk W = run_call env c b d in
      elim (Option-cases out.0) [
        | inr (e, q) ↦ rw (run_calls, q) (λ o. absurd (cc (o, q)))
        | inl q ↦
            let h = done q in
            rw (run_calls, q)
              (λ o.
                let k = rest (password_after c password) out.1 out.2 h.0 o in
                (k.0, λ j. k.1 j ∙ view_of-same cs (view out.1) (view_after c (view b)) h.1 j))
      ]

  run_calls-Kept :
      (cs : List Call) (password : Text) (b : FallbackBackend) (d : Disk W)
      → IsSaved env password b d
      → (run_calls env cs b d).0 ≡ none
      → Kept cs password b (run_calls env cs b d)
  unfolding run_calls
  run_calls-Kept [] password b d s o = (s, λ j. refl)
  run_calls-Kept (c ∷ cs) password b d s o =
      behind c cs password b d (run_call-Done env r password c b d s) (run_calls-Kept cs) o

  first_put :
      (key value password : Text) (b : FallbackBackend) (d : Disk W)
      → Keyed env password b
      → Done env (put key value) password b (run_call env (put key value) b d)
  unfolding run_call
  first_put key value password b d h =
      subst
        (λ (u : FallbackBackend).
          Done env (put key value) password u (set_secret env key value u d))
        (Keyed-under env password b h) (put-Done env r password b.salt b.entries key value d h.1)

  -- Open a vault with NewFallback, call Set, and then any sequence of Set, Delete and RotatePassword,
  -- all without an error. Then the file on disk opens, under the password last set, with the key and
  -- the salt in memory and the same values under the same names, and these are what the calls leave.
  -- AES-GCM, the random source and JSON are taken to do what they document.
  pub new_fallback-Kept :
      (password key value : Text) (cs : List Call) (d d' : Disk W) (b : FallbackBackend)
      → new_fallback env password d ≡ (ok b, d')
      → (run_calls env (put key value ∷ cs) b d').0 ≡ none
      → Kept (put key value ∷ cs) password b (run_calls env (put key value ∷ cs) b d')
  new_fallback-Kept password key value cs d d' b n o =
      let h : Keyed env password b =
        subst (Opened env password) (ap (λ x. x.0) n) (new_fallback-Opened env r password d) in
      behind (put key value) cs password b d' (first_put key value password b d' h)
        (run_calls-Kept cs) o
