-- ===== src/Wizard/GitHub.antt =====
-- wizard/github_execute.go, with the records of services/github/types.go: the GitHub phase of the
-- wizard. Each thing made at GitHub is followed by a push of its cleanup step. The provisioner is
-- an argument; where it answers no error, it answers a value.
pub mod Balance
pub mod Accounts
mod Tests
use webox.Prelude.{
  ℕ, ◌≡◌, Bool, true, false, ◌||◌, List, [], ◌∷◌, ◌++◌, Option, none, some, if◌then◌else◌, map,
}
use webox.Prelude.Int.{ℤ}
use webox.Prelude.Text.{Text, codes, is_empty, lookup, sort_texts}
use webox.Prelude.Decimal.{format_int}
use webox.Errors.{Error, Result, ok, err, sentinel, wrap, invalid_plan}
use webox.Wizard.Step.{
  CleanupStep, ResourceKind, Params, github_repo, github_deploy_key, github_actions_secret,
  github_workflow_file,
}
use webox.Wizard.Stack.{Env, Stack, push}
use webox.Wizard.Workflow.{validate_workflow_field}
use webox.Wizard.GitHubPlan.{
  CommitFileRequest, CreateRepoRequest, DeployKey, DeployKeyRequest, GitHubProvisionPlan,
  GitHubProvisionReport, GitHubProvisioner, RepoRef, Repository, WorkflowDispatch, bad_field,
  full_name, ref_of, sorted_secret_names, validate_github_provision_plan,
}

-- How far the phase has come.
pub record Progress (W : Type 0) : Type 0 where
  pub stack : Stack
  pub world : W
  pub report : GitHubProvisionReport

pub data Stage (W A : Type 0) : Type 0 where
  go : A → Progress W → Stage W A
  stop : Progress W → Error → Stage W A

infixl 5 ◌>>=◌
abbrev pub ◌>>=◌ : {W A B : Type 0} → Stage W A → (A → Progress W → Stage W B) → Stage W B
go a pr >>= f = f a pr
stop pr e >>= f = stop pr e

abbrev pub repo_params : RepoRef → Params
repo_params r = (codes "owner", r.owner) ∷ (codes "repo", r.name) ∷ []

abbrev pub key_params : RepoRef → ℤ → Params
key_params r id =
    (codes "owner", r.owner) ∷ (codes "repo", r.name) ∷ (codes "keyID", format_int id) ∷ []

abbrev pub secret_params : RepoRef → Text → Params
secret_params r name = (codes "owner", r.owner) ∷ (codes "repo", r.name) ∷ (codes "name", name) ∷ []

abbrev pub file_params : RepoRef → Text → Text → Params
file_params r path branch =
    (codes "owner", r.owner)
    ∷ (codes "repo", r.name)
    ∷ (codes "path", path)
    ∷ (codes "branch", branch)
    ∷ []

-- The value of a missing key is nil.
abbrev value_of : Option Text → Text
value_of none = []
value_of (some v) = v

module _ {W : Type 0} (env : Env W) (gh : GitHubProvisioner W) (plan : GitHubProvisionPlan) where
  -- Push of a cleanup step; what follows goes on with `a`.
  unfoldable pub push_then :
      {A : Type 0} → Text → ResourceKind → Params → A → Progress W → Stage W A
  push_then name kind params a pr =
      let cleanup : CleanupStep = record {
        name = name;
        kind = kind;
        params = params;
        created_at = env.now pr.world;
      } in
      let (s, w, failed) = push env cleanup pr.stack pr.world in
      elim failed [
        | none ↦ go a (record pr { stack = s; world = w })
        | some e ↦ stop (record pr { stack = s; world = w }) e
      ]

  unfoldable pub make_repo : Progress W → Stage W RepoRef
  unfolding push_then ref_of full_name
  make_repo pr =
      let request : CreateRepoRequest = record {
        owner = plan.owner;
        name = plan.repo;
        visibility = plan.visibility;
        auto_init = true;
      } in
      let (w, made) = gh.create_repo request pr.world in
      elim made [
        | err e ↦ stop (record pr { world = w }) e
        | ok repo ↦
            let ref = ref_of plan.owner plan.repo repo in
            push_then (codes "Delete GitHub repo " ++ full_name ref) github_repo (repo_params ref)
              ref (record pr { world = w; report = record pr.report { repository = some repo } })
      ]

  unfoldable pub make_deploy_key : RepoRef → Progress W → Stage W RepoRef
  unfolding push_then
  make_deploy_key ref pr =
      let request : DeployKeyRequest = record {
        title = codes "Webox deploy key";
        key = plan.deploy_public_key;
        read_only = false;
      } in
      let (w, made) = gh.add_deploy_key ref request pr.world in
      elim made [
        | err e ↦ stop (record pr { world = w }) e
        | ok key ↦
            push_then (codes "Remove GitHub deploy key " ++ format_int key.id) github_deploy_key
              (key_params ref key.id) ref
              (record pr { world = w; report = record pr.report { deploy_key = some key } })
      ]

  unfoldable pub make_secret : RepoRef → Text → Progress W → Stage W RepoRef
  unfolding push_then
  make_secret ref name pr =
      let (w, failed) =
        gh.set_actions_secret ref name (value_of (lookup name plan.secrets)) pr.world in
      elim failed [
        | some e ↦ stop (record pr { world = w }) e
        | none ↦
            push_then (codes "Remove GitHub Actions secret " ++ name) github_actions_secret
              (secret_params ref name) ref (record pr { world = w })
      ]

  unfoldable pub make_secrets : List Text → RepoRef → Progress W → Stage W RepoRef
  unfolding make_secret
  make_secrets [] ref pr = go ref pr
  make_secrets (name ∷ names) ref pr = make_secret ref name pr >>= λ r pr'. make_secrets names r pr'

  unfoldable pub make_workflow : RepoRef → Progress W → Stage W RepoRef
  unfolding push_then
  make_workflow ref pr =
      let request : CommitFileRequest = record {
        path = plan.workflow_path;
        branch = plan.branch;
        message = codes "Add Webox deploy workflow";
        content = plan.workflow_content;
      } in
      let (w, failed) = gh.commit_workflow_file ref request pr.world in
      elim failed [
        | some e ↦ stop (record pr { world = w }) e
        | none ↦
            push_then (codes "Remove GitHub workflow " ++ plan.workflow_path) github_workflow_file
              (file_params ref plan.workflow_path plan.branch) ref
              (record pr { world = w; report = record pr.report { workflow = some request } })
      ]

  unfoldable pub dispatch : RepoRef → Progress W → Stage W RepoRef
  dispatch ref pr =
      let (w, made) = gh.dispatch_workflow ref plan.workflow_path plan.branch pr.world in
      elim made [
        | err e ↦ stop (record pr { world = w }) e
        | ok d ↦ go ref (record pr { world = w; report = record pr.report { dispatch = some d } })
      ]

  unfoldable pub run_stages : Progress W → Stage W RepoRef
  unfolding make_repo make_deploy_key make_secrets make_workflow dispatch sorted_secret_names
  run_stages pr =
      make_repo pr
      >>= make_deploy_key
      >>= make_secrets (sorted_secret_names plan.secrets)
      >>= make_workflow
      >>= dispatch

abbrev pub no_report : GitHubProvisionReport
no_report = record { repository = none; deploy_key = none; workflow = none; dispatch = none }

-- What ExecuteGitHubProvision returns: an error before any call of the provisioner, or the last
-- stage, whose progress holds the report.
pub data Provisioned (W : Type 0) : Type 0 where
  refused : Error → Provisioned W
  ran : Stage W RepoRef → Provisioned W

unfoldable pub execute_github_provision :
    {W : Type 0}
    → Env W
    → Option (GitHubProvisioner W)
    → GitHubProvisionPlan
    → Option Stack
    → W
    → Provisioned W
unfolding run_stages validate_github_provision_plan
execute_github_provision env none plan stack w = refused (wrap (sentinel invalid_plan))
execute_github_provision env (some gh) plan none w = refused (wrap (sentinel invalid_plan))
execute_github_provision env (some gh) plan (some s) w =
    elim (validate_github_provision_plan plan) [
      | some e ↦ refused e
      | none ↦ ran (run_stages env gh plan (record { stack = s; world = w; report = no_report }))
    ]
