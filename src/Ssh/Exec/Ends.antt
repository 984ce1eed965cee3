-- ===== src/Ssh/Exec/Ends.antt =====
-- How Exec ends: its exit code, and what it gives back.
use webox.Prelude.{
  ◌≡◌, refl, ap, subst, ◌∙◌, ◌⊎◌, inl, inr, List, [], ◌∷◌, ◌++◌, append_assoc, Option, none, some,
  Option-cases,
}
use webox.Prelude.Int.{pos}
use webox.Prelude.Text.{Text}
use webox.Errors.{Error, Result-cases, ok, err}
use webox.Ssh.Exec.{RunError, Ran, finished, cancelled, Channel, run_command, with_client, exec}

Ran-cases :
    (r : Ran) → ((e : Option RunError) × (r ≡ finished e)) ⊎ ((e : Error) × (r ≡ cancelled e))
Ran-cases (finished e) = inl (e, refl)
Ran-cases (cancelled e) = inr (e, refl)

module _ {C W : Type 0} (ch : Channel C W) (command : Text) where
  run_command-zero :
      (client : C) (w : W)
      → (run_command ch command client w).2 ≡ none
      → (run_command ch command client w).1.exit_code ≡ pos 0
  unfolding run_command
  run_command-zero client w = elim (Ran-cases (ch.run command w).3) [
    | inr (e, q) ↦ rw (run_command, q) (λ h. absurd (cc h))
    | inl (e, q) ↦ elim (Option-cases e) [
      | inl n ↦ rw (run_command, q, n) (λ h. refl)
      | inr (r, n) ↦ rw (run_command, q, n) (λ h. absurd (cc h))
    ]
  ]

  -- Exec gives no error only with exit code 0: each command that ends with another code, and each
  -- that does not end, comes back as an error.
  pub exec-zero : (w : W) → (exec ch command w).2 ≡ none → (exec ch command w).1.exit_code ≡ pos 0
  unfolding exec with_client
  exec-zero w = elim (Result-cases (ch.acquire w).1) [
    | inr (e, q) ↦ rw (exec, q) (λ h. absurd (cc h))
    | inl (c, q) ↦ elim (Option-cases (ch.new_session c (ch.acquire w).0).1) [
      | inr (e, n) ↦ rw (exec, q, with_client, n) (λ h. absurd (cc h))
      | inl n ↦
          rw (exec, q, with_client, n) (run_command-zero c (ch.new_session c (ch.acquire w).0).0)
    ]
  ]

-- What Exec does with what it was given.
pub data Event (C : Type 0) : Type 0 where
  closed_session : Event C
  gave_back : C → Event C

module _ {C W : Type 0} (ch : Channel C W) (log : W → List (Event C))
    (acquired : (w : W) → log (ch.acquire w).0 ≡ log w)
    (released : (c : C) (w : W) → log (ch.release c w) ≡ log w ++ gave_back c ∷ [])
    (opened : (c : C) (w : W) → log (ch.new_session c w).0 ≡ log w)
    (ran : (cmd : Text) (w : W) → log (ch.run cmd w).0 ≡ log w)
    (closed : (w : W) → log (ch.close_session w) ≡ log w ++ closed_session ∷ []) where
  -- The session is closed once, or twice, and then the client is given back.
  abbrev pub Tidied : C → List (Event C) → List (Event C) → Type 0
  Tidied c before after =
      (after ≡ before ++ (closed_session ∷ gave_back c ∷ []))
      ⊎ (after ≡ before ++ (closed_session ∷ closed_session ∷ gave_back c ∷ []))

  close_once :
      (c : C) (w : W)
      → log (ch.release c (ch.close_session w)) ≡ log w ++ (closed_session ∷ gave_back c ∷ [])
  close_once c w =
      released c (ch.close_session w)
      ∙ ap (λ l. l ++ gave_back c ∷ []) (closed w)
      ∙ append_assoc (log w) (closed_session ∷ []) (gave_back c ∷ [])

  run_command-Tidied :
      (command : Text) (c : C) (w : W) → Tidied c (log w) (log (run_command ch command c w).0)
  unfolding run_command
  run_command-Tidied command c w =
      let after : W = (ch.run command w).0 in
      let tail : List (Event C) = closed_session ∷ gave_back c ∷ [] in
      elim (Ran-cases (ch.run command w).3) [
        | inl (e, q) ↦
            rw (run_command, q) (inl (close_once c after ∙ ap (λ l. l ++ tail) (ran command w)))
        | inr (e, q) ↦
            rw (run_command, q)
              (inr (
                close_once c (ch.close_session after)
                ∙ ap (λ l. l ++ tail)
                    (closed after ∙ ap (λ l. l ++ closed_session ∷ []) (ran command w))
                ∙ append_assoc (log w) (closed_session ∷ []) tail))
      ]

  -- Let `log` tell the sessions that were closed and the clients that were given back. If Acquire
  -- gives an error, Exec adds nothing to it. If it gives a client, Exec gives back that client, once
  -- and last: at once if no session opens, and behind the closing of the session otherwise, also when
  -- the run fails or the context ends.
  pub exec-Tidied :
      (command : Text) (w : W)
      → ((e : Error) × ((ch.acquire w).1 ≡ err e) × (log (exec ch command w).0 ≡ log w))
        ⊎ ((c : C) × ((ch.acquire w).1 ≡ ok c)
            × (((e : Error) × ((ch.new_session c (ch.acquire w).0).1 ≡ some e)
                  × (log (exec ch command w).0 ≡ log w ++ gave_back c ∷ []))
                ⊎ (((ch.new_session c (ch.acquire w).0).1 ≡ none)
                    × Tidied c (log w) (log (exec ch command w).0))))
  unfolding exec with_client
  exec-Tidied command w =
      let got : W = (ch.acquire w).0 in
      elim (Result-cases (ch.acquire w).1) [
        | inr (e, q) ↦ inl (e, q, rw (exec, q) (acquired w))
        | inl (c, q) ↦
            let before = opened c got ∙ acquired w in
            elim (Option-cases (ch.new_session c got).1) [
              | inr (e, n) ↦ inr (
                c,
                q,
                inl (
                  e,
                  n,
                  rw (exec, q, with_client, n)
                      (released c (ch.new_session c got).0
                        ∙ ap (λ l. l ++ gave_back c ∷ []) before),
                ),
              )
              | inl n ↦ inr (
                c,
                q,
                inr (
                  n,
                  rw (exec, q, with_client, n)
                      (subst
                        (λ l.
                          Tidied c l (log (run_command ch command c (ch.new_session c got).0).0))
                        before (run_command-Tidied command c (ch.new_session c got).0)),
                ),
              )
            ]
      ]
