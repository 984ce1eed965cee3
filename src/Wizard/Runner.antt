-- ===== src/Wizard/Runner.antt =====
-- MakeStepRunnerWithGitHub of wizard/rollback.go: the step runner that calls a panel and GitHub.
pub mod Calls
use webox.Prelude.{◌≡◌, refl, Bool, false, Option, none, some, arith, List, [], ◌∷◌}
use webox.Prelude.Int.{ℤ}
use webox.Prelude.Text.{Text, codes}
use webox.Prelude.Decimal.{parse_int64}
use webox.Errors.{Error, sentinel, wrap, join, plain, invalid_step, unsupported_kind}
use webox.Wizard.Step.{
  CleanupStep, ResourceKind, subdomain, ssl, database, github_repo, github_deploy_key,
  github_actions_secret, github_workflow_file, other, param, IsValid, validate_step,
}
use webox.Providers.{HostingProvider}
use webox.Wizard.Stack.{StepRunner}

-- GitHubCleanupRunner
pub record GitHubCleanupRunner (W : Type 0) : Type 0 where
  pub remove_github_repo : Text → Text → W → W × Option Error
  pub remove_github_deploy_key : Text → Text → ℤ → W → W × Option Error
  pub remove_github_actions_secret : Text → Text → Text → W → W × Option Error
  pub remove_github_workflow_file : Text → Text → Text → Text → W → W × Option Error

module _ {W : Type 0} (provider : Option (HostingProvider W))
    (gh : Option (GitHubCleanupRunner W)) where
  on_provider : (HostingProvider W → W → W × Option Error) → W → W × Option Error
  on_provider call w = elim provider [
    | none ↦ (w, some (wrap (sentinel invalid_step)))
    | some p ↦ call p w
  ]

  on_github : (GitHubCleanupRunner W → W → W × Option Error) → W → W × Option Error
  on_github call w = elim gh [
    | none ↦ (w, some (wrap (sentinel unsupported_kind)))
    | some g ↦ call g w
  ]

  with_key_id : Option ℤ → (ℤ → W → W × Option Error) → W → W × Option Error
  with_key_id none call w = (w, some (join (sentinel invalid_step) plain))
  with_key_id (some id) call w = call id w

  run_kind : ResourceKind → CleanupStep → W → W × Option Error
  unfolding on_provider on_github with_key_id
  run_kind subdomain step = on_provider λ p. p.remove_subdomain (param step.params (codes "domain"))
  run_kind ssl step = on_provider λ p. p.remove_ssl (param step.params (codes "domain"))
  run_kind database step = on_provider λ p.
      p.remove_database (param step.params (codes "dbKind")) (param step.params (codes "dbName"))
  run_kind github_repo step = on_github λ g.
      g.remove_github_repo (param step.params (codes "owner")) (param step.params (codes "repo"))
  run_kind github_deploy_key step = on_github λ g.
      with_key_id (parse_int64 (param step.params (codes "keyID"))) (
        g.remove_github_deploy_key (param step.params (codes "owner"))
          (param step.params (codes "repo")))
  run_kind github_actions_secret step = on_github λ g.
      g.remove_github_actions_secret (param step.params (codes "owner"))
        (param step.params (codes "repo")) (param step.params (codes "name"))
  run_kind github_workflow_file step = on_github λ g.
      g.remove_github_workflow_file (param step.params (codes "owner"))
        (param step.params (codes "repo")) (param step.params (codes "path"))
        (param step.params (codes "branch"))
  run_kind (other k) step = λ w. (w, some (wrap (sentinel unsupported_kind)))

  unfoldable pub make_step_runner_with_github : StepRunner W
  unfolding run_kind
  make_step_runner_with_github step = run_kind step.kind step

-- MakeStepRunner
pub make_step_runner : {W : Type 0} → Option (HostingProvider W) → StepRunner W
make_step_runner provider = make_step_runner_with_github provider none
