-- ===== src/Wizard/Stack/History.antt =====
-- What every stack holds, after any calls in any order.
use webox.Prelude.{
  ◌≡◌, false, List, [], ◌∷◌, ◌++◌, Option, none, some, inl, inr, Option-cases, All, All-append,
}
use webox.Prelude.Text.{Text}
use webox.Wizard.Secret.{is_secret_shaped}
use webox.Wizard.Step.{CleanupStep, IsValid, IsValid-no_secret}
use webox.Wizard.Stack.{
  Env, Stack, new_stack, begin_push, push, pop, pop_split, load_snapshot, first_invalid,
}
use webox.Wizard.Stack.Snoc.{unsnoc, Splits, unsnoc-Splits}
use webox.Wizard.Stack.Push.{push_settled, first_invalid-none}

pub data Call : Type 0 where
  pushes : CleanupStep → Call
  pops : Call
  loads : List CleanupStep → Call

module _ {W : Type 0} (env : Env W) where
  pub step_call : Call → Stack → W → Stack × W
  step_call (pushes step) s w = let r = push env step s w in (r.0, r.1)
  step_call pops s w = let p = pop env s w in (p.stack, p.world)
  step_call (loads steps) s w = ((load_snapshot steps s).0, w)

  pub run_calls : List Call → Stack → W → Stack × W
  run_calls [] s w = (s, w)
  run_calls (c ∷ cs) s w = let (s', w') = step_call c s w in run_calls cs s' w'

abbrev pub AllValid : Stack → Type 0
AllValid s = All IsValid s.steps

All-front {ℓ κ} : {A : Type ℓ} (P : A → Type κ) (xs ys : List A) → All P (xs ++ ys) → All P xs
All-front P [] ys h = tt
All-front P (x ∷ xs) ys h = (h.0, All-front P xs ys h.1)

module _ {W : Type 0} (env : Env W) where
  push-AllValid :
      (step : CleanupStep) (s : Stack) (w : W) → AllValid s → AllValid (push env step s w).0
  push-AllValid step s w v = elim (push_settled env step s w) [
    | inl p ↦
        rw (p.grown) (unfold begin_push in All-append IsValid s.steps (step ∷ []) v (p.valid, tt))
    | inr (e, _, same) ↦ rw same v
  ]

  pop_split-AllValid :
      (s : Stack) (o : Option (List CleanupStep × CleanupStep)) (w : W)
      → Splits s.steps o
      → AllValid s
      → AllValid (pop_split env s o w).stack
  unfolding pop_split
  pop_split-AllValid s none w e v = v
  pop_split-AllValid s (some (rest, last)) w e v = elim (Option-cases env.persist) [
    | inl q ↦ rw (q, pop_split) (All-front IsValid rest (last ∷ []) (rw e at v))
    | inr (save, q) ↦ rw (q, pop_split) (All-front IsValid rest (last ∷ []) (rw e at v))
  ]

  pop-AllValid : (s : Stack) (w : W) → AllValid s → AllValid (pop env s w).stack
  unfolding pop
  pop-AllValid s w v = elim (Option-cases (env.ctx_err w).1) [
    | inl c ↦ rw (c, pop) (pop_split-AllValid s (unsnoc s.steps) _ (unsnoc-Splits s.steps) v)
    | inr (e, c) ↦ rw (c, pop) v
  ]

  load_snapshot-AllValid :
      (steps : List CleanupStep) (s : Stack) → AllValid s → AllValid (load_snapshot steps s).0
  unfolding load_snapshot
  load_snapshot-AllValid steps s v = elim (Option-cases (first_invalid steps)) [
    | inl q ↦ rw (q, load_snapshot) (first_invalid-none steps q)
    | inr (e, q) ↦ rw (q, load_snapshot) v
  ]

  step_call-AllValid :
      (c : Call) (s : Stack) (w : W) → AllValid s → AllValid (step_call env c s w).0
  unfolding step_call
  step_call-AllValid (pushes step) s w v = push-AllValid step s w v
  step_call-AllValid pops s w v = pop-AllValid s w v
  step_call-AllValid (loads steps) s w v = load_snapshot-AllValid steps s v

  run_calls-AllValid :
      (cs : List Call) (s : Stack) (w : W) → AllValid s → AllValid (run_calls env cs s w).0
  unfolding run_calls
  run_calls-AllValid [] s w v = v
  run_calls-AllValid (c ∷ cs) s w v =
      run_calls-AllValid cs (step_call env c s w).0 (step_call env c s w).1
        (step_call-AllValid c s w v)

abbrev pub NoSecret : CleanupStep → Type 0
NoSecret step = All (λ p. is_secret_shaped p.1 ≡ false) step.params

All-map {ℓ κ μ} :
    {A : Type ℓ} (P : A → Type κ) (Q : A → Type μ) (f : (a : A) → P a → Q a) (xs : List A)
    → All P xs
    → All Q xs
All-map P Q f [] h = tt
All-map P Q f (x ∷ xs) h = (f x h.0, All-map P Q f xs h.1)

-- Whatever calls of Push, Pop and LoadSnapshot a new stack has seen, and however the context and
-- the saves behaved, every step on it is valid and carries no secret-shaped parameter.
pub run_calls_safe :
    {W : Type 0} (env : Env W) (cs : List Call) (id : Text) (w : W)
    → let s = (run_calls env cs (new_stack id) w).0 in All IsValid s.steps × All NoSecret s.steps
unfolding new_stack
run_calls_safe env cs id w =
    let v = run_calls-AllValid env cs (new_stack id) w tt in
    (v, All-map IsValid NoSecret IsValid-no_secret _ v)
