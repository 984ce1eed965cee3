-- ===== src/Wizard/Stack/Push.antt =====
-- What Push, Pop and LoadSnapshot do to the stack, and what every stack holds.
use webox.Prelude.{
  ◌≡◌, ◌∙◌, refl, List, [], ◌∷◌, Option, none, some, arith, ◌⊎◌, inl, inr, Option-cases, All,
}
use webox.Errors.{Error}
use webox.Wizard.Step.{CleanupStep, validate_step, IsValid}
use webox.Wizard.Stack.{Env, Stack, begin_push, undo_push, save_push, push, first_invalid}
use webox.Wizard.Stack.Snoc.{drop_last-snoc}

pub undo-begin_push : (s : Stack) (step : CleanupStep) → undo_push (begin_push s step) ≡ s
unfolding undo_push begin_push
undo-begin_push s step = rw (drop_last-snoc s.steps step)

-- The world after a save of `steps`, if there is a place to save them to.
module _ {W : Type 0} where
  abbrev pub saved : Env W → List CleanupStep → W → W
  saved env steps w = elim env.persist [ none ↦ w | some save ↦ (save steps w).0 ]

module _ {W : Type 0} (env : Env W) (step : CleanupStep) (s : Stack) (w : W) where
  pub record Pushed (r : Stack × W × Option Error) : Type 0 where
    pub accepted : r.2 ≡ none
    pub valid : IsValid step
    pub grown : r.0 ≡ begin_push s step
    pub on_disk : r.1 ≡ saved env r.0.steps (env.ctx_err w).0

  save_settled :
      IsValid step
      → let r = save_push env (begin_push s step) (env.ctx_err w).0 in
        Pushed r ⊎ ((e : Error) × (r.2 ≡ some e) × (r.0 ≡ s))
  unfolding save_push
  save_settled v = ground (arith, undo-begin_push s step)

  -- Push either accepts a valid step, which then is the newest on the stack and in the snapshot on
  -- disk, or reports an error and leaves the stack as it was.
  pub push_settled :
      let r = push env step s w in Pushed r ⊎ ((e : Error) × (r.2 ≡ some e) × (r.0 ≡ s))
  unfolding push
  push_settled = elim (Option-cases (env.ctx_err w).1) [
    | inr (e, c) ↦ rw (c, push) (inr (e, refl, refl))
    | inl c ↦
        rw (c, push)
          (elim (Option-cases (validate_step step)) [
            | inl v ↦ rw v (save_settled v)
            | inr (e, v) ↦ rw v (inr (e, refl, refl))
          ])
  ]

pub first_invalid-none : (steps : List CleanupStep) → first_invalid steps ≡ none → All IsValid steps
unfolding first_invalid
first_invalid-none [] h = tt
first_invalid-none (x ∷ xs) h = elim (Option-cases (validate_step x)) [
  | inl q ↦ (q, first_invalid-none xs (rw (q, first_invalid) at h))
  | inr (e, q) ↦ cc (h, q)
]

-- A Push changes nothing of the world that reading the context and saving the stack leave alone.
pub push-world :
    {W A : Type 0} (env : Env W) (f : W → A) (step : CleanupStep) (s : Stack) (w : W)
    → ((v : W) → f (env.ctx_err v).0 ≡ f v)
    → ((save : List CleanupStep → W → W × Option Error) (steps : List CleanupStep) (v : W)
        → env.persist ≡ some save
        → f (save steps v).0 ≡ f v)
    → f (push env step s w).1 ≡ f w
unfolding push save_push begin_push
push-world env f step s w context saves = elim (Option-cases (env.ctx_err w).1) [
  | inr (e, c) ↦ rw (push, c) (context w)
  | inl c ↦ elim (Option-cases (validate_step step)) [
    | inr (e, v) ↦ rw (push, c, v) (context w)
    | inl v ↦ elim (Option-cases env.persist) [
      | inl p ↦ rw (push, c, v, save_push, p) (context w)
      | inr (save, p) ↦
          let kept : f (save (begin_push s step).steps (env.ctx_err w).0).0 ≡ f w =
            saves save (begin_push s step).steps (env.ctx_err w).0 p ∙ context w in
          elim (Option-cases (save (begin_push s step).steps (env.ctx_err w).0).1) [
            | inl q ↦ rw (push, c, v, save_push, p, q) kept
            | inr (e, q) ↦ rw (push, c, v, save_push, p, q) kept
          ]
    ]
  ]
]
