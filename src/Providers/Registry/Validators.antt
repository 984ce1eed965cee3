-- ===== src/Providers/Registry/Validators.antt =====
-- The registry of plan validators never holds an incomplete set.
use webox.Prelude.{
  ◌≡◌, ◌∙◌, sym, true, List, [], ◌∷◌, some, arith, inl, inr, Option-cases, Bool-cases,
}
use webox.Prelude.Text.{
  Text, text_eq, is_empty, trim_space, lookup, insert, erase, lookup-insert, lookup-erase,
}
use webox.Errors.{ok}
use webox.Providers.{PlanValidators, is_complete}
use webox.Providers.Registry.{
  Validators, register_plan_validators, unregister_plan_validators, plan_validators_for,
}

pub data Call : Type 0 where
  registers : Text → PlanValidators → Call
  unregisters : Text → Call

unfoldable pub run : List Call → Validators → Validators
run [] m = m
run (registers t set ∷ cs) m = run cs (register_plan_validators t set m).0
run (unregisters t ∷ cs) m = run cs (unregister_plan_validators t m).0

abbrev AllComplete : Validators → Type 0
AllComplete m = (k : Text) (v : PlanValidators) → lookup k m ≡ some v → is_complete v ≡ true

insert-AllComplete :
    (t : Text) (set : PlanValidators) (m : Validators)
    → is_complete set ≡ true
    → AllComplete m
    → AllComplete (insert t set m)
insert-AllComplete t set m c all k v h = elim (Bool-cases (text_eq t k)) [
  | inl q ↦ ground (arith, lookup-insert t k set m)
  | inr q ↦ all k v (sym (lookup-insert t k set m ∙ rw q) ∙ h)
]

erase-AllComplete : (t : Text) (m : Validators) → AllComplete m → AllComplete (erase t m)
erase-AllComplete t m all k v h = elim (Bool-cases (text_eq t k)) [
  | inl q ↦ ground (arith, lookup-erase t k m)
  | inr q ↦ all k v (sym (lookup-erase t k m ∙ rw q) ∙ h)
]

register-AllComplete :
    (t : Text) (set : PlanValidators) (m : Validators)
    → AllComplete m
    → AllComplete (register_plan_validators t set m).0
unfolding register_plan_validators
register-AllComplete t set m all = elim (Bool-cases (is_empty (trim_space t))) [
  | inl q ↦ rw (q, register_plan_validators) all
  | inr q ↦ elim (Bool-cases (is_complete set)) [
    | inr i ↦ rw (q, i, register_plan_validators) all
    | inl i ↦ elim (Option-cases (lookup (trim_space t) m)) [
      | inl a ↦
          rw (q, i, a, register_plan_validators) (insert-AllComplete (trim_space t) set m i all)
      | inr (v, a) ↦ rw (q, i, a, register_plan_validators) all
    ]
  ]
]

unregister-AllComplete :
    (t : Text) (m : Validators) → AllComplete m → AllComplete (unregister_plan_validators t m).0
unfolding unregister_plan_validators
unregister-AllComplete t m all = elim (Option-cases (lookup t m)) [
  | inl a ↦ rw (a, unregister_plan_validators) all
  | inr (v, a) ↦ rw (a, unregister_plan_validators) (erase-AllComplete t m all)
]

run-AllComplete : (cs : List Call) (m : Validators) → AllComplete m → AllComplete (run cs m)
unfolding run
run-AllComplete [] m all = all
run-AllComplete (registers t set ∷ cs) m all =
    run-AllComplete cs _ (register-AllComplete t set m all)
run-AllComplete (unregisters t ∷ cs) m all = run-AllComplete cs _ (unregister-AllComplete t m all)

-- Whatever calls have been made, PlanValidatorsFor only hands out complete sets.
pub plan_validators_for_complete :
    (cs : List Call) (t : Text) (v : PlanValidators)
    → plan_validators_for t (run cs []) ≡ ok v
    → is_complete v ≡ true
plan_validators_for_complete cs t v h =
    run-AllComplete cs [] (λ k w q. unfold lookup in cc) (trim_space t) v (found h)
  where
    found : plan_validators_for t (run cs []) ≡ ok v → lookup (trim_space t) (run cs []) ≡ some v
    found h' = unfold plan_validators_for in ground arith
