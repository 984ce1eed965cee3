-- ===== src/Wizard/Stack/Undo.antt =====
-- What Rollback undoes: the steps from the newest on, each once, whatever the runner answers.
use webox.Prelude.{
  ℕ, zero, suc, ◌<◌, ◌≡◌, refl, ap, sym, ◌∙◌, List, [], ◌∷◌, ◌++◌, Option, none, some, arith,
  reverse, length, map, inl, inr, Option-cases, append-nil,
}
use mathlib.Core.Option
use mathlib.Core.List.{nil≢cons}
use webox.Errors.{Error, wrap, join_all, join_all-none}
use webox.Wizard.Step.{CleanupStep}
use webox.Wizard.Stack.{
  Env, StepRunner, Stack, Popped, Outcome, pop, pop_split, after_pop, rollback_loop, rollback,
  stopped, with_result, noted,
}
use webox.Wizard.Stack.Snoc.{unsnoc, Splits, unsnoc-Splits, reverse-snoc, length-snoc}

abbrev pub listed {ℓ} : {A : Type ℓ} → Option A → List A
listed none = []
listed (some a) = a ∷ []

-- The three ends of a Pop. After a failed one a step may be gone that was not handed out.
data PopEnd {W : Type 0} (s : Stack) (p : Popped W) : Type 0 where
  failed :
      (e : Error) (lost : Option CleanupStep)
      → p.err ≡ some e
      → s.steps ≡ p.stack.steps ++ listed lost
      → PopEnd s p
  emptied : p.err ≡ none → p.step ≡ none → s.steps ≡ [] → p.stack.steps ≡ [] → PopEnd s p
  popped :
      (x : CleanupStep)
      → p.err ≡ none
      → p.step ≡ some x
      → s.steps ≡ p.stack.steps ++ x ∷ []
      → PopEnd s p

module _ {W : Type 0} (env : Env W) where
  split_end :
      (s : Stack) (o : Option (List CleanupStep × CleanupStep)) (w : W)
      → Splits s.steps o
      → PopEnd s (pop_split env s o w)
  unfolding pop_split
  split_end s none w e = emptied refl refl e e
  split_end s (some (rest, last)) w e = elim (Option-cases env.persist) [
    | inl q ↦ rw (q, pop_split) (popped last refl refl e)
    | inr (save, q) ↦ elim (Option-cases (save rest w).1) [
      | inl k ↦ rw (q, pop_split, k) (popped last refl refl e)
      | inr (d, k) ↦ rw (q, pop_split, k) (failed (wrap d) (some last) refl e)
    ]
  ]

  pop_end : (s : Stack) (w : W) → PopEnd s (pop env s w)
  unfolding pop
  pop_end s w = elim (Option-cases (env.ctx_err w).1) [
    | inl c ↦ rw (c, pop) (split_end s (unsnoc s.steps) _ (unsnoc-Splits s.steps))
    | inr (e, c) ↦ rw (c, pop) (failed e none refl (sym (append-nil s.steps)))
  ]

-- `lost` is a step that a failed save took off the stack in memory.
pub record Undone {W : Type 0} (s : Stack) (o : Outcome W) : Type 0 where
  pub lost : Option CleanupStep
  pub order :
      map (λ r. r.step) o.results ++ (listed lost ++ reverse o.stack.steps) ≡ reverse s.steps
  pub complete : o.errs ≡ [] → (lost ≡ none) × (o.stack.steps ≡ [])

reverse-lost :
    (rest : List CleanupStep) (lost : Option CleanupStep)
    → listed lost ++ reverse rest ≡ reverse (rest ++ listed lost)
reverse-lost rest none = rw append-nil
reverse-lost rest (some x) = sym (reverse-snoc rest x)

append-eq-nil {ℓ} : {A : Type ℓ} (xs ys : List A) → xs ++ ys ≡ [] → ys ≡ []
append-eq-nil [] ys h = h
append-eq-nil (x ∷ xs) ys h = absurd (nil≢cons (sym h))

module _ {W : Type 0} (env : Env W) (run : StepRunner W) where
  -- A run that ends with all of `s` accounted for.
  abbrev Ends : Stack → Option (Outcome W) → Type 0
  Ends s r = (o : Outcome W) × (r ≡ some o) × Undone s o

  with_result-Ends :
      (s rest : Stack) (x : CleanupStep) (verdict : Option Error) (r : Option (Outcome W))
      → s.steps ≡ rest.steps ++ x ∷ []
      → Ends rest r
      → Ends s (Option.map (with_result x verdict) r)
  with_result-Ends s rest x verdict r e (o, q, u) = (
    with_result x verdict o,
    rw q,
    record {
      lost = u.lost;
      order = rw (e, reverse-snoc rest.steps x) (ap (◌∷◌ x) u.order);
      complete = λ h. u.complete (append-eq-nil (noted verdict) o.errs h);
    },
  )

  after_pop-Ends :
      (s : Stack) (p : Popped W) (again : Stack → W → Option (Outcome W))
      → PopEnd s p
      → ((w : W) → length p.stack.steps < length s.steps → Ends p.stack (again p.stack w))
      → Ends s (after_pop env run again p)
  unfolding after_pop
  after_pop-Ends s p again (failed e lost q steps) ih = (
    stopped p.stack p.world (e ∷ []),
    rw q,
    record { lost = lost; order = rw steps (reverse-lost p.stack.steps lost); complete = λ h. cc },
  )
  after_pop-Ends s p again (emptied q r steps left) ih = (
    stopped p.stack p.world [],
    rw (q, after_pop, r),
    record { lost = none; order = rw (steps, left); complete = λ h. (refl, left) },
  )
  after_pop-Ends s p again (popped x q r steps) ih =
      rw (q, after_pop, r)
        (with_result-Ends s p.stack x (run x p.world).1 _ steps
          (ih (run x p.world).0 (rw steps (omega (arith, length-snoc p.stack.steps x)))))

  loop-Ends :
      (f : ℕ) (s : Stack) (w : W) → length s.steps < f → Ends s (rollback_loop env run f s w)
  unfolding rollback_loop
  loop-Ends zero s w lt = elim lt [ ]
  loop-Ends (suc f) s w lt = elim (Option-cases (env.ctx_err w).1) [
    | inr (e, c) ↦ (
      stopped s (env.ctx_err w).0 (e ∷ []),
      rw (c, rollback_loop),
      record { lost = none; order = refl; complete = λ h. cc },
    )
    | inl c ↦
        rw (c, rollback_loop)
          (after_pop-Ends s (pop env s (env.ctx_err w).0) (rollback_loop env run f)
            (pop_end env s (env.ctx_err w).0) (λ w' le. loop-Ends f _ w' (omega arith)))
  ]

Undone-all :
    {W : Type 0} (s : Stack) (o : Outcome W)
    → Undone s o
    → o.errs ≡ []
    → (map (λ r. r.step) o.results ≡ reverse s.steps) × (o.stack.steps ≡ [])
Undone-all s o u h =
    let (none_lost, none_left) = u.complete h in
    (
      sym (append-nil (map (λ r. r.step) o.results)) ∙ (rw (none_lost, none_left) at (u.order)),
      none_left,
    )

-- Rollback ends, and accounts for every step: those it ran are the newest, in reverse push order,
-- each once. What is left on the stack follows, but for at most one step that a failed save lost.
-- If it returns no error, every step was run and none is left.
pub rollback-Undone :
    {W : Type 0} (env : Env W) (run : StepRunner W) (s : Stack) (w : W)
    → (o : Outcome W) × (rollback env (some run) s w ≡ some (o, join_all o.errs))
      × Undone s o
      × (join_all o.errs ≡ none
          → (map (λ r. r.step) o.results ≡ reverse s.steps) × (o.stack.steps ≡ []))
unfolding rollback
rollback-Undone env run s w =
    let (o, q, u) = loop-Ends env run (suc (length s.steps)) s w (omega arith) in
    (o, rw q, u, λ h. Undone-all s o u (join_all-none o.errs h))
