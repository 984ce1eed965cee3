-- ===== src/Wizard/Stack/Races.antt =====
-- Two Pushes at once. The mutex is free while a snapshot is saved, so the critical sections of
-- different calls interleave.
use webox.Prelude.{◌≡◌, refl, ap, sym, subst, ◌∙◌, List, [], ◌∷◌, ◌++◌, Option, none, some}
use webox.Errors.{Error, wrap}
use webox.Wizard.Step.{CleanupStep}
use webox.Wizard.Stack.{Stack, Env, begin_push, undo_push}
use webox.Wizard.Stack.Push.{undo-begin_push}

-- The two calls of Push.
pub data Caller : Type 0 where
  first second : Caller

-- A part of a call, behind its checks: the first critical section, and the save of the snapshot that
-- was taken in it, with the second critical section if the save fails.
pub data Section : Type 0 where
  begins : Caller → CleanupStep → Section
  ends : Caller → Section

-- What is kept for each call: the snapshot that it took, and with what it ended, if it has.
pub record Turn : Type 0 where
  pub snapshot : List CleanupStep
  pub ended : Option (Option Error)

pub record Race (W : Type 0) : Type 0 where
  pub stack : Stack
  pub world : W
  pub first_turn : Turn
  pub second_turn : Turn

abbrev turn_of : {W : Type 0} → Caller → Race W → Turn
turn_of first r = r.first_turn
turn_of second r = r.second_turn

abbrev set_turn : {W : Type 0} → Caller → Turn → Race W → Race W
set_turn first t r = record r { first_turn = t }
set_turn second t r = record r { second_turn = t }

abbrev ended_with : Option Error → Turn → Turn
ended_with e t = record { snapshot = t.snapshot; ended = some e }

abbrev pub start : {W : Type 0} → Stack → W → Race W
start s w =
    let idle : Turn = record { snapshot = []; ended = none } in
    record { stack = s; world = w; first_turn = idle; second_turn = idle }

module _ {W : Type 0} (env : Env W) where
  unfoldable pub run_section : Section → Race W → Race W
  run_section (begins c step) r =
      let s : Stack = begin_push r.stack step in
      set_turn c (record { snapshot = s.steps; ended = none }) (record r { stack = s })
  run_section (ends c) r = elim env.persist [
    | none ↦ set_turn c (ended_with none (turn_of c r)) r
    | some save ↦
        let saved = save (turn_of c r).snapshot r.world in
        elim saved.1 [
          | none ↦ set_turn c (ended_with none (turn_of c r)) (record r { world = saved.0 })
          | some e ↦
              set_turn c (ended_with (some (wrap e)) (turn_of c r))
                (record r { stack = undo_push r.stack; world = saved.0 })
        ]
  ]

  unfoldable pub run_sections : List Section → Race W → Race W
  unfolding run_section
  run_sections [] r = r
  run_sections (x ∷ xs) r = run_sections xs (run_section x r)

  abbrev failed_end : Caller → (List CleanupStep → W → W × Option Error) → Error → Race W → Race W
  failed_end c save e r =
      set_turn c (ended_with (some (wrap e)) (turn_of c r))
        (record r { stack = undo_push r.stack; world = (save (turn_of c r).snapshot r.world).0 })

  abbrev good_end : Caller → (List CleanupStep → W → W × Option Error) → Race W → Race W
  good_end c save r =
      set_turn c (ended_with none (turn_of c r))
        (record r { world = (save (turn_of c r).snapshot r.world).0 })

  run_section-fails :
      (c : Caller) (save : List CleanupStep → W → W × Option Error) (e : Error) (r : Race W)
      → env.persist ≡ some save
      → (save (turn_of c r).snapshot r.world).1 ≡ some e
      → run_section (ends c) r ≡ failed_end c save e r
  unfolding run_section
  run_section-fails c save e r given fails = rw (run_section, given, fails) refl

  run_section-works :
      (c : Caller) (save : List CleanupStep → W → W × Option Error) (r : Race W)
      → env.persist ≡ some save
      → (save (turn_of c r).snapshot r.world).1 ≡ none
      → run_section (ends c) r ≡ good_end c save r
  unfolding run_section
  run_section-works c save r given works = rw (run_section, given, works) refl

  -- Two Pushes, of `a` and of `b`, take their snapshots one after the other. Then the save of the first
  -- fails, and that of the second, of a snapshot with both steps, succeeds. The first Push reports the
  -- error and the second none; yet `a` stays on the stack and `b` is gone.
  pub failed_push_takes_other :
      (save : List CleanupStep → W → W × Option Error) (s : Stack) (w : W) (a b : CleanupStep)
      (e : Error)
      → env.persist ≡ some save
      → (save (s.steps ++ a ∷ []) w).1 ≡ some e
      → (save ((s.steps ++ a ∷ []) ++ b ∷ []) (save (s.steps ++ a ∷ []) w).0).1 ≡ none
      → let r =
          run_sections
            (begins first a ∷ begins second b ∷ ends first ∷ ends second ∷ [])
            (start s w) in
        (r.first_turn.ended ≡ some (some (wrap e)))
        × (r.second_turn.ended ≡ some none)
        × (r.stack.steps ≡ s.steps ++ a ∷ [])
  unfolding run_sections run_section begin_push
  failed_push_takes_other save s w a b e given fails works =
      let begun : Race W = run_sections (begins first a ∷ begins second b ∷ []) (start s w) in
      let undone : Race W = failed_end first save e begun in
      let path : run_section (ends second) (run_section (ends first) begun)
          ≡ good_end second save undone =
        ap (run_section (ends second)) (run_section-fails first save e begun given fails)
        ∙ run_section-works second save undone given works in
      subst
        (λ (r : Race W).
          (r.first_turn.ended ≡ some (some (wrap e)))
          × (r.second_turn.ended ≡ some none)
          × (r.stack.steps ≡ s.steps ++ a ∷ []))
        (sym path) (refl, refl, ap (λ x. x.steps) (undo-begin_push (begin_push s a) b))
