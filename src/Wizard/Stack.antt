-- ===== src/Wizard/Stack.antt =====
-- wizard/rollback.go: the LIFO rollback stack. `W` is the world outside: the context, the clock,
-- the disk and the panel, in whatever state they are. A method that unlocks the mutex on its way
-- is cut at that place into one function for each critical section.
pub mod Snoc
pub mod Push
pub mod Undo
pub mod History
pub mod Races
use webox.Prelude.{ℕ, zero, suc, Bool, List, [], ◌∷◌, ◌++◌, Option, none, some, length}
use mathlib.Core.Option
use webox.Prelude.Text.{Text}
use webox.Errors.{Error, sentinel, wrap, invalid_step, join_all}
use webox.Wizard.Step.{CleanupStep, validate_step}
use Snoc.{unsnoc, drop_last}

-- What the callers hand in. `ctx_err` is ctx.Err(), which may answer otherwise each time that it
-- is asked; `persist` is the PersistFunc, or nil.
pub record Env (W : Type 0) : Type 0 where
  pub ctx_err : W → W × Option Error
  pub persist : Option (List CleanupStep → W → W × Option Error)
  pub now : W → ℕ

-- StepRunner
abbrev pub StepRunner : Type 0 → Type 0
StepRunner W = CleanupStep → W → W × Option Error

-- The steps stand oldest first.
pub record Stack : Type 0 where
  pub steps : List CleanupStep
  pub wizard_id : Text

unfoldable pub new_stack : Text → Stack
new_stack id = record { steps = []; wizard_id = id }

pub record CleanupResult : Type 0 where
  pub step : CleanupStep
  pub err : Option Error

-- The first critical section of Push, and the one that takes the step back.
unfoldable pub begin_push : Stack → CleanupStep → Stack
begin_push s step = record s { steps = s.steps ++ step ∷ [] }

unfoldable pub undo_push : Stack → Stack
undo_push s = record s { steps = drop_last s.steps }

-- What Pop returns; its boolean is whether there is a step.
pub record Popped (W : Type 0) : Type 0 where
  pub stack : Stack
  pub world : W
  pub step : Option CleanupStep
  pub err : Option Error

module _ {W : Type 0} (env : Env W) where
  save_push : Stack → W → Stack × W × Option Error
  unfolding undo_push
  save_push s w = elim env.persist [
    | none ↦ (s, w, none)
    | some save ↦
        let (w', failed) = save s.steps w in
        elim failed [ none ↦ (s, w', none) | some e ↦ (undo_push s, w', some (wrap e)) ]
  ]

  unfoldable pub push : CleanupStep → Stack → W → Stack × W × Option Error
  unfolding save_push begin_push
  push step s w =
      let (w', cancelled) = env.ctx_err w in
      elim cancelled [
        | some e ↦ (s, w', some e)
        | none ↦ elim (validate_step step) [
          | some e ↦ (s, w', some e)
          | none ↦ save_push (begin_push s step) w'
        ]
      ]

  save_pop : Stack → CleanupStep → W → Popped W
  save_pop s last w = elim env.persist [
    | none ↦ record { stack = s; world = w; step = some last; err = none }
    | some save ↦
        let (w', failed) = save s.steps w in
        record { stack = s; world = w'; step = some last; err = Option.map wrap failed }
  ]

  pop_split : Stack → Option (List CleanupStep × CleanupStep) → W → Popped W
  unfolding save_pop
  pop_split s none w = record { stack = s; world = w; step = none; err = none }
  pop_split s (some (rest, last)) w = save_pop (record s { steps = rest }) last w

  unfoldable pub pop : Stack → W → Popped W
  unfolding pop_split
  pop s w =
      let (w', cancelled) = env.ctx_err w in
      elim cancelled [
        | some e ↦ record { stack = s; world = w'; step = none; err = some e }
        | none ↦ pop_split s (unsnoc s.steps) w'
      ]

unfoldable pub first_invalid : List CleanupStep → Option Error
first_invalid [] = none
first_invalid (step ∷ steps) = elim (validate_step step) [
  | some e ↦ some e
  | none ↦ first_invalid steps
]

-- LoadSnapshot
unfoldable pub load_snapshot : List CleanupStep → Stack → Stack × Option Error
unfolding first_invalid
load_snapshot steps s = elim (first_invalid steps) [
  | some e ↦ (s, some e)
  | none ↦ (record s { steps = steps }, none)
]

-- The state when Rollback returns: what it returns, with the errors not yet joined.
pub record Outcome (W : Type 0) : Type 0 where
  pub stack : Stack
  pub world : W
  pub results : List CleanupResult
  pub errs : List Error

abbrev noted : Option Error → List Error
noted none = []
noted (some e) = wrap e ∷ []

module _ {W : Type 0} where
  abbrev stopped : Stack → W → List Error → Outcome W
  stopped s w errs = record { stack = s; world = w; results = []; errs = errs }

  abbrev with_result : CleanupStep → Option Error → Outcome W → Outcome W
  with_result step failed o = record o {
    results = record { step = step; err = failed } ∷ o.results;
    errs = noted failed ++ o.errs;
  }

module _ {W : Type 0} (env : Env W) (run : StepRunner W) where
  -- The part of a round that follows its Pop; `again` is the next round.
  after_pop : (Stack → W → Option (Outcome W)) → Popped W → Option (Outcome W)
  after_pop again p = elim p.err [
    | some e ↦ some (stopped p.stack p.world (e ∷ []))
    | none ↦ elim p.step [
      | none ↦ some (stopped p.stack p.world [])
      | some step ↦
          let (w, failed) = run step p.world in
          Option.map (with_result step failed) (again p.stack w)
    ]
  ]

  -- The loop of Rollback. Each round pops a step, so a fuel above their number is enough.
  rollback_loop : ℕ → Stack → W → Option (Outcome W)
  unfolding after_pop
  rollback_loop zero s w = none
  rollback_loop (suc f) s w =
      let (w', cancelled) = env.ctx_err w in
      elim cancelled [
        | some e ↦ some (stopped s w' (e ∷ []))
        | none ↦ after_pop (rollback_loop f) (pop env s w')
      ]

-- Rollback: the outcome and the joined error.
unfoldable pub rollback :
    {W : Type 0} → Env W → Option (StepRunner W) → Stack → W → Option (Outcome W × Option Error)
unfolding rollback_loop
rollback env none s w = some (stopped s w [], some (wrap (sentinel invalid_step)))
rollback env (some run) s w =
    Option.map (λ o. (o, join_all o.errs)) (rollback_loop env run (suc (length s.steps)) s w)
