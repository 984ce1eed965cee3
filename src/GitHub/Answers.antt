-- ===== src/GitHub/Answers.antt =====
-- When the wait for a run ends, and with what.
use webox.Prelude.{
  ◌≢◌, ◌⊎◌, Bool-cases, ◌≡◌, refl, sym, subst, ◌∙◌, ℕ, zero, suc, ◌≤◌, arith, Option, none, some,
  Option-cases, inl, inr, ◌↔◌,
}
use webox.Prelude.Int.{ℤ}
use webox.Prelude.Text.{codes, text_eq, text_eq_sound, text_eq_iff, text_eq_differ}
use webox.Errors.{sentinel, wrap, workflow_dispatch_failed, Error, Result, ok, err, Result-cases}
use webox.GitHub.Poll.{
  WorkflowRun, Outcome, Polling, interval_of, verdict, poll, wait_for_workflow_completion,
}

-- A run that is not completed, or none.
abbrev pub IsPending : Option WorkflowRun → Type 0
IsPending none = Unit
IsPending (some run) = run.status ≢ codes "completed"

-- A completed run with its outcome: the run alone after a success, and with
-- ErrWorkflowDispatchFailed after any other conclusion.
abbrev pub Settles : Option WorkflowRun → Outcome → Type 0
Settles none out = ⊥
Settles (some run) out =
    (run.status ≡ codes "completed")
    × (((run.conclusion ≡ codes "success") × (out ≡ record { run = some run; error = none }))
        ⊎ ((run.conclusion ≢ codes "success")
            × (out ≡ record {
              run = some run;
              error = some (wrap (sentinel workflow_dispatch_failed));
            })))

verdict-IsPending : (r : Option WorkflowRun) → IsPending r → verdict r ≡ none
unfolding verdict
verdict-IsPending none h = refl
verdict-IsPending (some run) h = elim (Bool-cases (text_eq run.status (codes "completed"))) [
  | inl e ↦ absurd (h (text_eq_sound run.status (codes "completed") e))
  | inr n ↦ rw (verdict, n) refl
]

verdict-Settles : (r : Option WorkflowRun) (out : Outcome) → Settles r out → verdict r ≡ some out
unfolding verdict
verdict-Settles none out h = absurd h
verdict-Settles (some run) out (c, h) =
    let done = (text_eq_iff run.status (codes "completed")).1 c in
    elim h [
      | inl (s, o) ↦ rw (verdict, done, (text_eq_iff run.conclusion (codes "success")).1 s, o) refl
      | inr (n, o) ↦ elim (Bool-cases (text_eq run.conclusion (codes "success"))) [
        | inl e ↦ absurd (n (text_eq_sound run.conclusion (codes "success") e))
        | inr m ↦ rw (verdict, done, m, o) refl
      ]
    ]

verdict-cases :
    (r : Option WorkflowRun)
    → ((out : Outcome) × (verdict r ≡ some out) × Settles r out)
      ⊎ ((verdict r ≡ none) × IsPending r)
unfolding verdict
verdict-cases none = inr (refl, tt)
verdict-cases (some run) = elim (Bool-cases (text_eq run.status (codes "completed"))) [
  | inr n ↦ rw (verdict, n) (inr (refl, text_eq_differ run.status (codes "completed") n))
  | inl d ↦
      let done = text_eq_sound run.status (codes "completed") d in
      elim (Bool-cases (text_eq run.conclusion (codes "success"))) [
        | inl e ↦
            let good = text_eq_sound run.conclusion (codes "success") e in
            rw (verdict, d, e) (inl (_, refl, (done, inl (good, refl))))
        | inr n ↦
            let bad = text_eq_differ run.conclusion (codes "success") n in
            rw (verdict, d, n) (inl (_, refl, (done, inr (bad, refl))))
      ]
]

-- The ways in which a wait that begins at a world can end.
pub data Answers {W : Type 0} (env : Polling W) (interval : ℤ) : W → Outcome → Type 0 where
  -- GetLatestRun gives an error.
  fails :
      {w : W} {e : Error}
      → (env.get_latest_run w).0 ≡ err e
      → Answers env interval w (record { run = none; error = some e })
  -- There is a run that is completed.
  settles :
      {w : W} {out : Outcome} (run : Option WorkflowRun)
      → (env.get_latest_run w).0 ≡ ok run
      → Settles run out
      → Answers env interval w out
  -- The sleep after a run that is not completed ends with an error.
  breaks :
      {w : W} {e : Error} (run : Option WorkflowRun)
      → (env.get_latest_run w).0 ≡ ok run
      → IsPending run
      → (env.sleep interval (env.get_latest_run w).1).0 ≡ some e
      → Answers env interval w (record { run = none; error = some e })
  -- The run is not completed, and the wait goes on.
  goes_on :
      {w : W} {out : Outcome} (run : Option WorkflowRun)
      → (env.get_latest_run w).0 ≡ ok run
      → IsPending run
      → (env.sleep interval (env.get_latest_run w).1).0 ≡ none
      → Answers env interval (env.sleep interval (env.get_latest_run w).1).1 out
      → Answers env interval w out

some_eq : {A : Type 0} {a b : A} → some a ≡ some b → a ≡ b
some_eq h = cc h

module _ {W : Type 0} (env : Polling W) (interval : ℤ) where
  -- Enough fuel, and any more, gives one outcome.
  abbrev pub Ends : W → Outcome → Type 0
  Ends w out = (n : ℕ) × ((fuel : ℕ) → n ≤ fuel → poll env fuel interval w ≡ some out)

  -- A wait that ends in its first turn.
  at_once :
      (w : W) (out : Outcome)
      → ((fuel : ℕ) → poll env (suc fuel) interval w ≡ some out)
      → Ends w out
  at_once w out h = (1, first)
    where
      first : (fuel : ℕ) → 1 ≤ fuel → poll env fuel interval w ≡ some out
      first zero l = absurd (omega (arith, l))
      first (suc fuel) l = h fuel

  turn :
      (w w' : W) (out : Outcome)
      → ((fuel : ℕ) → poll env (suc fuel) interval w ≡ poll env fuel interval w')
      → Ends w' out
      → Ends w out
  turn w w' out h (n, ends) = (suc n, next)
    where
      next : (fuel : ℕ) → suc n ≤ fuel → poll env fuel interval w ≡ some out
      next zero l = absurd (omega (arith, l))
      next (suc fuel) l = h fuel ∙ ends fuel (omega (arith, l))

  poll_complete : {w : W} {out : Outcome} → Answers env interval w out → Ends w out
  unfolding poll
  poll_complete (Answers.fails {w = w} g) = at_once w _ (λ f. rw (poll, g) refl)
  poll_complete (Answers.settles {w = w} run g v) =
      at_once w _ (λ f. rw (poll, g, verdict-Settles run _ v) refl)
  poll_complete (Answers.breaks {w = w} run g v s) =
      at_once w _ (λ f. rw (poll, g, verdict-IsPending run v, s) refl)
  poll_complete (Answers.goes_on {w = w} run g v s a) =
      turn w _ _ (λ f. rw (poll, g, verdict-IsPending run v, s) refl) (poll_complete a)

  poll_sound :
      (fuel : ℕ) (w : W) (out : Outcome)
      → poll env fuel interval w ≡ some out
      → Answers env interval w out
  unfolding poll
  poll_sound zero w out h = absurd (cc h)
  poll_sound (suc fuel) w out h =
      let got : Result (Option WorkflowRun) × W = env.get_latest_run w in
      let slept : Option Error × W = env.sleep interval got.1 in
      let from : (o : Outcome)
          → Answers env interval w o
          → some o ≡ some out
          → Answers env interval w out =
        λ o a e. subst (Answers env interval w) (some_eq e) a in
      elim (Result-cases got.0) [
        | inr (e, g) ↦
            let o : poll env (suc fuel) interval w ≡ some (record { run = none; error = some e }) =
              rw (poll, g) refl in
            from _ (Answers.fails g) (sym o ∙ h)
        | inl (run, g) ↦ elim (verdict-cases run) [
          | inl (v, q, k) ↦
              let o : poll env (suc fuel) interval w ≡ some v = rw (poll, g, q) refl in
              from _ (Answers.settles run g k) (sym o ∙ h)
          | inr (q, k) ↦ elim (Option-cases slept.0) [
            | inr (e, s) ↦
                let o : poll env (suc fuel) interval w
                    ≡ some (record { run = none; error = some e }) =
                  rw (poll, g, q, s) refl in
                from _ (Answers.breaks run g k s) (sym o ∙ h)
            | inl s ↦
                let o : poll env (suc fuel) interval w ≡ poll env fuel interval slept.1 =
                  rw (poll, g, q, s) refl in
                Answers.goes_on run g k s (poll_sound fuel slept.1 out (sym o ∙ h))
          ]
        ]
      ]

-- The wait for a run ends with an outcome, on all fuel from some amount on, exactly when its turns
-- lead there: each but the last finds no completed run and sleeps without an error; the last meets
-- an error, which is the outcome, or a completed run, which is given alone if its conclusion is
-- `success` and with ErrWorkflowDispatchFailed otherwise.
pub wait_for_workflow_completion_iff :
    {W : Type 0} (env : Polling W) (interval : ℤ) (w : W) (out : Outcome)
    → Answers env (interval_of interval) w out ↔ (
        (n : ℕ) × ((fuel : ℕ)
          → n ≤ fuel
          → wait_for_workflow_completion (some env) fuel interval w ≡ some out))
unfolding wait_for_workflow_completion
wait_for_workflow_completion_iff env interval w out = (
  poll_complete env (interval_of interval),
  λ e. poll_sound env (interval_of interval) e.0 w out (e.1 e.0 (omega arith)),
)
