-- ===== src/Wizard/Execute/Accounts.antt =====
-- The stack accounts for everything that an execution made.
use webox.Prelude.{
  ◌≡◌, refl, sym, Bool, true, false, List, [], ◌∷◌, ◌++◌, some, inl, inr, Option-cases, Bool-cases,
  map, if◌then◌else◌, append_assoc, ◌||◌, append-nil,
}
use mathlib.Core.List.{map-append}
use mathlib.Core.Path.{subst}
use webox.Prelude.Text.{Text, codes, is_empty}
use webox.Errors.{Result-cases}
use webox.Providers.{HostingProvider}
use webox.Providers.Registry.{Validators, plan_validators_for}
use webox.Wizard.Step.{CleanupStep, ResourceKind, Params, subdomain, ssl, database}
use webox.Wizard.Stack.{Env, Stack, begin_push}
use webox.Wizard.Stack.Push.{push_settled}
use webox.Wizard.Plan.{ProvisionPlan, validate_plan}
use webox.Wizard.Execute.{
  ProvisionReport, Progress, Stage, go, stop, ◌>>=◌, ExecutionFailedError, FailedStep,
  at_subdomain_cleanup, at_ssl_cleanup, at_database_cleanup, push_cleanup, make_subdomain, make_ssl,
  make_database, run_stages, Executed, refused, ran, execute, empty_report,
}

-- What undoing a step needs of it.
abbrev pub Removal : Type 0
Removal = ResourceKind × Params

abbrev pub removal : CleanupStep → Removal
removal step = (step.kind, step.params)

abbrev pub removals : Stack → List Removal
removals s = map removal s.steps

abbrev pub when : Bool → Removal → List Removal
when true r = r ∷ []
when false r = []

-- The removals that the resources reported as made call for, in the order they were made.
abbrev pub due : ProvisionPlan → Bool → Bool → Bool → List Removal
due plan a b c =
    when a (subdomain, (codes "domain", plan.domain) ∷ [])
    ++ (when b (ssl, (codes "domain", plan.domain) ∷ [])
        ++ when c (database, (codes "dbKind", plan.db_kind) ∷ (codes "dbName", plan.db_name) ∷ []))

abbrev pub due_of : ProvisionPlan → ProvisionReport → List Removal
due_of plan r = due plan r.subdomain.ok r.ssl.ok r.database.ok

-- The step failed while its cleanup was pushed.
abbrev pub is_cleanup : FailedStep → Bool
is_cleanup at_subdomain_cleanup = true
is_cleanup at_ssl_cleanup = true
is_cleanup at_database_cleanup = true
is_cleanup _ = false

module _ {W : Type 0} (plan : ProvisionPlan) (before : List Removal) where
  abbrev Accounted : Progress W → Type 0
  Accounted pr = removals pr.stack ≡ before ++ due_of plan pr.report

  -- What stops with a failed push lacks the last removal.
  abbrev pub AccountedStop : Progress W → ExecutionFailedError → Type 0
  AccountedStop pr e =
      if is_cleanup e.failed_step
      then ((k : Removal) × (removals pr.stack ++ k ∷ [] ≡ before ++ due_of plan pr.report))
      else (removals pr.stack ≡ before ++ due_of plan pr.report)

  record At (a b c : Bool) (pr : Progress W) : Type 0 where
    has_subdomain : pr.report.subdomain.ok ≡ a
    has_ssl : pr.report.ssl.ok ≡ b
    has_database : pr.report.database.ok ≡ c
    tracked : removals pr.stack ≡ before ++ due plan a b c

  abbrev Post : Bool → Bool → Bool → Stage W → Type 0
  Post a b c (go pr) = At a b c pr
  Post a b c (stop pr e) = AccountedStop pr e

module _ {W : Type 0} (env : Env W) (p : HostingProvider W) (plan : ProvisionPlan)
    (before : List Removal) where
  push_cleanup-Post :
      (label : FailedStep) (name : Text) (kind : ResourceKind) (params : Params) (pr : Progress W)
      (a b c : Bool) (front : List Removal)
      → is_cleanup label ≡ true
      → pr.report.subdomain.ok ≡ a
      → pr.report.ssl.ok ≡ b
      → pr.report.database.ok ≡ c
      → removals pr.stack ≡ before ++ front
      → due plan a b c ≡ front ++ (kind, params) ∷ []
      → Post plan before a b c (push_cleanup env p plan label name kind params pr)
  unfolding push_cleanup
  push_cleanup-Post label name kind params pr a b c front l ha hb hc t d =
      elim (push_settled env cleanup pr.stack pr.world) [
        | inl q ↦
            rw (q.accepted, push_cleanup)
              (record {
                has_subdomain = ha;
                has_ssl = hb;
                has_database = hc;
                tracked = rw q.grown (
                    unfold begin_push in
                    rw (map-append removal pr.stack.steps (cleanup ∷ [])) grown);
              })
        | inr (e, q, same) ↦ rw (q, push_cleanup, l) ((kind, params), rw (same, ha, hb, hc) grown)
      ]
    where
      cleanup : CleanupStep
      cleanup = record { name = name; kind = kind; params = params; created_at = env.now pr.world }

      grown : removals pr.stack ++ (kind, params) ∷ [] ≡ before ++ due plan a b c
      grown = rw (t, d) (append_assoc before front ((kind, params) ∷ []))

  make_subdomain-Post :
      (pr : Progress W)
      → At plan before false false false pr
      → Post plan before true false false (make_subdomain env p plan pr)
  unfolding make_subdomain
  make_subdomain-Post pr h =
      elim (Option-cases (p.create_subdomain plan.domain plan.node_version pr.world).1) [
        | inr (e, q) ↦ rw (q, make_subdomain) (rw (h.has_ssl, h.has_database) (h.tracked))
        | inl q ↦
            rw (q, make_subdomain)
              (push_cleanup-Post at_subdomain_cleanup _ subdomain _ _ true false false [] refl refl
                h.has_ssl h.has_database h.tracked refl)
      ]

  make_ssl-Post :
      (pr : Progress W)
      → At plan before true false false pr
      → Post plan before true true false (make_ssl env p plan pr)
  unfolding make_ssl
  make_ssl-Post pr h = elim (Option-cases (p.setup_ssl plan.domain pr.world).1) [
    | inr (e, q) ↦ rw (q, make_ssl) (rw (h.has_subdomain, h.has_database) (h.tracked))
    | inl q ↦
        rw (q, make_ssl)
          (push_cleanup-Post at_ssl_cleanup _ ssl _ _ true true false (due plan true false false)
            refl h.has_subdomain refl h.has_database h.tracked refl)
  ]

  make_database-Post :
      (pr : Progress W)
      → At plan before true true false pr
      → Post plan before true true true (make_database env p plan pr)
  unfolding make_database
  make_database-Post pr h =
      elim (Result-cases (p.create_database plan.db_kind plan.db_name pr.world).1) [
        | inr (e, q) ↦ rw (q, make_database) (rw (h.has_subdomain, h.has_ssl) (h.tracked))
        | inl (account, q) ↦
            rw (q, make_database)
              (push_cleanup-Post at_database_cleanup _ database _ _ true true true
                (due plan true true false) refl h.has_subdomain h.has_ssl refl h.tracked refl)
      ]

-- Where the stages end, the stack accounts for what the report says was made.
abbrev pub Accounts : {W : Type 0} → ProvisionPlan → List Removal → Stage W → Type 0
Accounts plan before (go pr) =
    (removals pr.stack ≡ before ++ due_of plan pr.report)
    × (pr.report.subdomain.ok ≡ true)
    × (pr.report.ssl.ok ≡ true)
Accounts plan before (stop pr e) = AccountedStop plan before pr e

module _ {W : Type 0} (plan : ProvisionPlan) (before : List Removal) where
  At-Accounts :
      (c : Bool) (pr : Progress W) → At plan before true true c pr → Accounts plan before (go pr)
  At-Accounts c pr h =
      (rw (h.has_subdomain, h.has_ssl, h.has_database) (h.tracked), h.has_subdomain, h.has_ssl)

  Post-Accounts :
      (c : Bool) (st : Stage W) → Post plan before true true c st → Accounts plan before st
  Post-Accounts c (go pr) h = At-Accounts c pr h
  Post-Accounts c (stop pr e) h = h

  bind-Accounts :
      (a b c : Bool) (st : Stage W) (f : Progress W → Stage W)
      → Post plan before a b c st
      → ((pr : Progress W) → At plan before a b c pr → Accounts plan before (f pr))
      → Accounts plan before (st >>= f)
  bind-Accounts a b c (go pr) f h k = k pr h
  bind-Accounts a b c (stop pr e) f h k = h

run_stages-Accounts :
    {W : Type 0} (env : Env W) (p : HostingProvider W) (plan : ProvisionPlan) (s : Stack) (w : W)
    → Accounts plan
        (removals s)
        (run_stages env p plan (record { stack = s; world = w; report = empty_report }))
unfolding run_stages
run_stages-Accounts env p plan s w =
    bind-Accounts plan (removals s) true false false _ _
      (make_subdomain-Post env p plan (removals s)
        (record { stack = s; world = w; report = empty_report })
        (record {
          has_subdomain = refl;
          has_ssl = refl;
          has_database = refl;
          tracked = sym (append-nil (removals s));
        }))
      (λ pr h.
        bind-Accounts plan (removals s) true true false _ _
          (make_ssl-Post env p plan (removals s) pr h) (λ pr' h'. last pr' h'))
  where
    last :
        (pr : Progress _)
        → At plan (removals s) true true false pr
        → Accounts plan (removals s) (
            if is_empty plan.db_kind || is_empty plan.db_name
            then go pr
            else make_database env p plan pr)
    last pr h = elim (Bool-cases (is_empty plan.db_kind || is_empty plan.db_name)) [
      | inl q ↦ rw q (At-Accounts plan (removals s) false pr h)
      | inr q ↦
          rw q (
            Post-Accounts plan (removals s) true _
              (make_database-Post env p plan (removals s) pr h))
    ]

abbrev OnRan : {W : Type 0} → ProvisionPlan → List Removal → Executed W → Type 0
OnRan plan before (refused e) = Unit
OnRan plan before (ran st) = Accounts plan before st

execute-OnRan :
    {W : Type 0} (env : Env W) (validators : Validators) (p : HostingProvider W)
    (plan : ProvisionPlan) (s : Stack) (w : W)
    → OnRan plan (removals s) (execute env validators (some p) plan (some s) w)
unfolding execute
execute-OnRan env validators p plan s w =
    elim (Result-cases (plan_validators_for p.name validators)) [
      | inr (e, q) ↦ rw (q, execute) tt
      | inl (v, q) ↦ elim (Option-cases (validate_plan plan v)) [
        | inr (e, b) ↦ rw (q, execute, b) tt
        | inl b ↦ rw (q, execute, b) (run_stages-Accounts env p plan s w)
      ]
    ]

-- When Execute has called the provider, the stack holds what it held before, and on top of that
-- one cleanup step for each resource that the report marks as made, in that order. Only if it
-- stopped because a cleanup step could not be pushed is the last of these missing. If it reports
-- no error, the subdomain and the certificate were made.
pub execute-Accounts :
    {W : Type 0} (env : Env W) (validators : Validators) (p : HostingProvider W)
    (plan : ProvisionPlan) (s : Stack) (w : W) (st : Stage W)
    → execute env validators (some p) plan (some s) w ≡ ran st
    → Accounts plan (removals s) st
execute-Accounts env validators p plan s w st h =
    subst (OnRan plan (removals s)) h (execute-OnRan env validators p plan s w)
