-- ===== src/Wizard/Execute/RoundTrip.antt =====
-- Rolling back an execution.
use webox.Prelude.{◌≡◌, refl, sym, ap, ◌∙◌, List, [], ◌∷◌, none, some, map, reverse}
use mathlib.Core.List.{map-map, map-append, reverse-cons}
use webox.Errors.{join_all}
use webox.Providers.{HostingProvider}
use webox.Providers.Registry.{Validators}
use webox.Wizard.Stack.{Env, StepRunner, Stack, Outcome, rollback}
use webox.Wizard.Stack.Undo.{rollback-Undone}
use webox.Wizard.Plan.{ProvisionPlan}
use webox.Wizard.Execute.{Progress, go, execute, ran}
use webox.Wizard.Execute.Accounts.{removal, due_of, execute-Accounts}

map-reverse {ℓ κ} :
    {A : Type ℓ} {B : Type κ} (f : A → B) (xs : List A) → map f (reverse xs) ≡ reverse (map f xs)
map-reverse f [] = refl
map-reverse f (x ∷ xs) =
    rw (reverse-cons x xs, map-append, map-reverse f xs) (sym (reverse-cons (f x) (map f xs)))

-- After an execution that ends well on an empty stack, Rollback runs to its end, and if it reports
-- no error the cleanups that ran are those of the resources made, the last made first.
pub execute-rollback :
    {W : Type 0} (env : Env W) (validators : Validators) (p : HostingProvider W)
    (plan : ProvisionPlan) (s : Stack) (w : W) (pr : Progress W) (run : StepRunner W)
    → s.steps ≡ []
    → execute env validators (some p) plan (some s) w ≡ ran (go pr)
    → (o : Outcome W) × (rollback env (some run) pr.stack pr.world ≡ some (o, join_all o.errs))
      × (join_all o.errs ≡ none
          → (map (λ r. removal r.step) o.results ≡ reverse (due_of plan pr.report))
            × (o.stack.steps ≡ []))
execute-rollback env validators p plan s w pr run clean h =
    let (o, q, u, all) = rollback-Undone env run pr.stack pr.world in
    (
      o,
      q,
      λ quiet. (
        sym (map-map removal (λ r. r.step) o.results)
            ∙ ap (map removal) (all quiet).0
            ∙ map-reverse removal pr.stack.steps
            ∙ ap reverse made,
        (all quiet).1,
      ),
    )
  where
    made : map removal pr.stack.steps ≡ due_of plan pr.report
    made = rw clean at ((execute-Accounts env validators p plan s w (go pr) h).0)
