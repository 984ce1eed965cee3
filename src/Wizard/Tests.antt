-- ===== src/Wizard/Tests.antt =====
-- Runs of the wizard against a panel that counts its calls.
use webox.Prelude.{
  false, List, zero, suc, Option, ℕ, ◌+◌, ◌≡◌, refl, true, [], ◌∷◌, ◌++◌, none, some, map, reverse,
  All, ◌⊎◌, arith,
}
use webox.Prelude.Int.{negsuc}
use webox.Prelude.Text.{codes, lookup, text_eq, trim_space}
use webox.Prelude.Decimal.{parse_int64, format_int, parse_int64-format_int}
use webox.Errors.{Error, ok, sentinel, wrap, join_all, secret_in_cleanup}
use webox.Providers.{HostingProvider, PlanValidators, is_complete}
use webox.Providers.Registry.{Validators, plan_validators_for}
use webox.Wizard.Secret.{is_secret_shaped, is_secret_shaped-token, personal, is_alnum}
use webox.Wizard.Step.{
  CleanupStep, subdomain, ssl, param, validate_step, IsValid, has_secret, lacks_param, bad_key_id,
}
use webox.Wizard.Stack.{Env, StepRunner, Stack, new_stack, push, rollback, Outcome}
use webox.Wizard.Stack.Push.{Pushed, push_settled}
use webox.Wizard.Stack.Undo.{Undone, rollback-Undone}
use webox.Wizard.Stack.History.{pushes, pops, run_calls, run_calls_safe}
use webox.Errors.{plain, wrap}
use webox.Wizard.Stack.Races.{
  first, second, begins, ends, Race, start, run_sections, failed_push_takes_other,
}
use webox.Wizard.Plan.{ProvisionPlan, validate_plan, is_listed, is_valid_stack, is_valid_db_kind}
use webox.Wizard.Stack.History.{NoSecret}
use webox.Wizard.Runner.{GitHubCleanupRunner, make_step_runner_with_github}
use webox.Wizard.Runner.Calls.{RemoveCall, IsGiven, Names, perform, make_step_runner-Reaches}
use webox.Wizard.Execute.Accounts.{Accounts, removal, due_of, execute-Accounts}
use webox.Wizard.Execute.RoundTrip.{execute-rollback}
use webox.Wizard.Execute.{stop, go, Executed, refused, ran, execute, empty_report, Progress}

-- The context is never cancelled, nothing is saved, and the world counts the calls made.
abbrev quiet : Env ℕ
quiet = record { ctx_err = λ w. (w, none); persist = none; now = λ w. w }

abbrev panel : HostingProvider ℕ
panel = record {
  name = codes "smallhost";
  check_status = λ w. (w, none, none);
  list_subdomains = λ w. (w, ok []);
  create_subdomain = λ d v w. (w + 1, none);
  setup_ssl = λ d w. (w + 1, none);
  create_database = λ k n w. (w + 1, ok (codes "user", codes "secret"));
  remove_subdomain = λ d w. (w + 1, none);
  remove_ssl = λ d w. (w + 1, none);
  remove_database = λ k n w. (w + 1, none);
}

abbrev lenient : PlanValidators
lenient = record {
  validate_domain = some (λ t. none);
  validate_node_version = some (λ t. none);
  validate_db_name = some (λ t. none);
}

abbrev plan : ProvisionPlan
plan = record {
  profile_alias = codes "main";
  stack = codes "static";
  domain = codes "a.example.org";
  node_version = codes "22";
  db_kind = codes "mysql";
  db_name = codes "app";
}

abbrev validators : Validators
validators = (codes "smallhost", lenient) ∷ []

abbrev nowhere : Progress ℕ
nowhere = record { stack = record { steps = []; wizard_id = [] }; world = 0; report = empty_report }

abbrev progress_of : Executed ℕ → Progress ℕ
progress_of (ran (go pr)) = pr
progress_of (ran (stop pr e)) = pr
progress_of (refused e) = nowhere

abbrev fresh : Stack
fresh = record { steps = []; wizard_id = codes "w1" }

abbrev executed : Executed ℕ
executed = execute quiet validators (some panel) plan (some fresh) 0

executed_ran : executed ≡ ran (go (progress_of executed))
unfolding execute plan_validators_for validate_plan trim_space lookup text_eq is_complete is_listed
    push validate_step has_secret lacks_param bad_key_id is_secret_shaped param is_valid_stack
    is_valid_db_kind
executed_ran = refl

execute-Accounts_example : Accounts plan [] (go (progress_of executed))
execute-Accounts_example =
    execute-Accounts quiet validators panel plan fresh 0 (go (progress_of executed)) executed_ran

-- The runner that rolls back at the panel.
abbrev at_panel : StepRunner ℕ
at_panel = make_step_runner_with_github (some panel) none

execute-rollback_example :
    (o : Outcome ℕ) × (rollback quiet
        (some at_panel)
        (progress_of executed).stack
        (progress_of executed).world
      ≡ some (o, join_all o.errs))
    × (join_all o.errs ≡ none
        → (map (λ r. removal r.step) o.results
            ≡ reverse (due_of plan (progress_of executed).report))
          × (o.stack.steps ≡ []))
execute-rollback_example =
    execute-rollback quiet validators panel plan fresh 0 (progress_of executed) at_panel refl
      executed_ran

abbrev domain_step : CleanupStep
domain_step = record {
  name = codes "Remove subdomain a.example.org";
  kind = subdomain;
  params = (codes "domain", codes "a.example.org") ∷ [];
  created_at = 0;
}

domain_step-IsValid : IsValid domain_step
unfolding validate_step has_secret lacks_param bad_key_id is_secret_shaped param lookup text_eq
domain_step-IsValid = refl

leaky_step_refused :
    validate_step (record domain_step { params = (codes "domain", codes "Token GHP_x1") ∷ [] })
    ≡ some (wrap (sentinel secret_in_cleanup))
unfolding validate_step has_secret is_secret_shaped
leaky_step_refused = refl

abbrev other_step : CleanupStep
other_step = record domain_step { kind = ssl }

abbrev github : GitHubCleanupRunner ℕ
github = record {
  remove_github_repo = λ o r w. (w + 1, none);
  remove_github_deploy_key = λ o r i w. (w + 1, none);
  remove_github_actions_secret = λ o r n w. (w + 1, none);
  remove_github_workflow_file = λ o r f b w. (w + 1, none);
}

abbrev one_step : Stack
one_step = record fresh { steps = domain_step ∷ [] }

push_settled_example :
    let r = push quiet domain_step fresh 0 in
    Pushed quiet domain_step fresh 0 r ⊎ ((e : Error) × (r.2 ≡ some e) × (r.0 ≡ fresh))
push_settled_example = push_settled quiet domain_step fresh 0

rollback-Undone_example :
    (o : Outcome ℕ) × (rollback quiet (some at_panel) one_step 0 ≡ some (o, join_all o.errs))
    × Undone one_step o
    × (join_all o.errs ≡ none
        → (map (λ r. r.step) o.results ≡ domain_step ∷ []) × (o.stack.steps ≡ []))
rollback-Undone_example = rollback-Undone quiet at_panel one_step 0

run_calls_safe_example :
    let s =
      (run_calls quiet (pushes domain_step ∷ pops ∷ pushes domain_step ∷ []) (new_stack []) 0).0 in
    All IsValid s.steps × All NoSecret s.steps
run_calls_safe_example =
    run_calls_safe quiet (pushes domain_step ∷ pops ∷ pushes domain_step ∷ []) [] 0

-- The first save fails and the second does not; the world counts them.
abbrev flaky : List CleanupStep → ℕ → ℕ × Option Error
flaky steps zero = (1, some plain)
flaky steps (suc n) = (suc (suc n), none)

abbrev flaky_env : Env ℕ
flaky_env = record quiet { persist = some flaky }

abbrev both : Race ℕ
both =
    run_sections flaky_env
      (begins first domain_step ∷ begins second other_step ∷ ends first ∷ ends second ∷ [])
      (start fresh 0)

failed_push_takes_other_example :
    (both.first_turn.ended ≡ some (some (wrap plain)))
    × (both.second_turn.ended ≡ some none)
    × (both.stack.steps ≡ fresh.steps ++ domain_step ∷ [])
failed_push_takes_other_example =
    failed_push_takes_other flaky_env flaky fresh 0 domain_step other_step plain refl refl refl

make_step_runner-Reaches_example :
    (c : RemoveCall) × Names subdomain domain_step.params c
    × IsGiven c
    × ((w : ℕ)
        → make_step_runner_with_github (some panel) (some github) domain_step w
          ≡ perform panel github c w)
make_step_runner-Reaches_example =
    make_step_runner-Reaches panel github domain_step domain_step-IsValid

abbrev nameless : ProvisionPlan
nameless = record plan { db_name = [] }

-- The prefixes of OAuth, user and refresh tokens are not known.
other_tokens_missed :
    (is_secret_shaped (codes "gho_a1") ≡ false)
    × (is_secret_shaped (codes "ghu_a1") ≡ false)
    × (is_secret_shaped (codes "ghr_a1") ≡ false)
unfolding is_secret_shaped
other_tokens_missed = (refl, refl, refl)

is_secret_shaped-token_example :
    is_secret_shaped (codes "url=" ++ (codes "ghp_" ++ b'7' ∷ codes "abc")) ≡ true
unfolding is_alnum
is_secret_shaped-token_example =
    is_secret_shaped-token personal (codes "url=") b'7' (codes "abc") refl

parse_int64-format_int_example : parse_int64 (format_int (negsuc 41)) ≡ some (negsuc 41)
parse_int64-format_int_example = parse_int64-format_int (negsuc 41) (omega arith)
