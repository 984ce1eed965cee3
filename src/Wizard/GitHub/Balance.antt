-- ===== src/Wizard/GitHub/Balance.antt =====
-- The stack and what was made at GitHub, stage by stage.
use webox.Prelude.{
  ◌≡◌, ◌∙◌, ◌⊎◌, inl, inr, Option-cases, true, false, List, [], ◌∷◌, ◌++◌, Option, none, some,
  append_assoc,
}
use mathlib.Core.List.{map-append}
use webox.Prelude.Text.{Text, codes, lookup}
use webox.Errors.{Error, ok, err, Result-cases}
use webox.Wizard.Step.{
  CleanupStep, ResourceKind, Params, github_repo, github_deploy_key, github_actions_secret,
  github_workflow_file,
}
use webox.Wizard.Stack.{Env, Stack, push, begin_push}
use webox.Wizard.Stack.Push.{push_settled, push-world}
use webox.Wizard.Execute.Accounts.{Removal, removal, removals}
use webox.Wizard.GitHubPlan.{
  GitHubProvisionPlan, RepoRef, Repository, CreateRepoRequest, DeployKeyRequest, DeployKey,
  CommitFileRequest, GitHubProvisionReport, GitHubProvisioner, ref_of,
}
use webox.Wizard.GitHub.{
  Progress, Stage, go, stop, ◌>>=◌, repo_params, key_params, secret_params, file_params, push_then,
  make_repo, make_deploy_key, make_secret, make_secrets, make_workflow, dispatch, value_of,
}

-- What GitHub holds, as the removals that it calls for, seen through `log`. Reading the context
-- and saving the stack change nothing there; a call adds what it answers to have made, and a
-- failed call nothing.
pub record Observes {W : Type 0} (env : Env W) (gh : GitHubProvisioner W) (log : W → List Removal)
    : Type 0 where
  pub context : (w : W) → log (env.ctx_err w).0 ≡ log w
  pub save :
      (save : List CleanupStep → W → W × Option Error) (steps : List CleanupStep) (w : W)
      → env.persist ≡ some save
      → log (save steps w).0 ≡ log w
  pub repo :
      (q : CreateRepoRequest) (w : W) (r : Repository)
      → (gh.create_repo q w).1 ≡ ok r
      → log (gh.create_repo q w).0
        ≡ log w ++ (github_repo, repo_params (ref_of q.owner q.name r)) ∷ []
  pub no_repo :
      (q : CreateRepoRequest) (w : W) (e : Error)
      → (gh.create_repo q w).1 ≡ err e
      → log (gh.create_repo q w).0 ≡ log w
  pub key :
      (r : RepoRef) (q : DeployKeyRequest) (w : W) (k : DeployKey)
      → (gh.add_deploy_key r q w).1 ≡ ok k
      → log (gh.add_deploy_key r q w).0 ≡ log w ++ (github_deploy_key, key_params r k.id) ∷ []
  pub no_key :
      (r : RepoRef) (q : DeployKeyRequest) (w : W) (e : Error)
      → (gh.add_deploy_key r q w).1 ≡ err e
      → log (gh.add_deploy_key r q w).0 ≡ log w
  pub secret :
      (r : RepoRef) (name value : Text) (w : W)
      → (gh.set_actions_secret r name value w).1 ≡ none
      → log (gh.set_actions_secret r name value w).0
        ≡ log w ++ (github_actions_secret, secret_params r name) ∷ []
  pub no_secret :
      (r : RepoRef) (name value : Text) (w : W) (e : Error)
      → (gh.set_actions_secret r name value w).1 ≡ some e
      → log (gh.set_actions_secret r name value w).0 ≡ log w
  pub file :
      (r : RepoRef) (q : CommitFileRequest) (w : W)
      → (gh.commit_workflow_file r q w).1 ≡ none
      → log (gh.commit_workflow_file r q w).0
        ≡ log w ++ (github_workflow_file, file_params r q.path q.branch) ∷ []
  pub no_file :
      (r : RepoRef) (q : CommitFileRequest) (w : W) (e : Error)
      → (gh.commit_workflow_file r q w).1 ≡ some e
      → log (gh.commit_workflow_file r q w).0 ≡ log w
  pub run :
      (r : RepoRef) (path branch : Text) (w : W)
      → log (gh.dispatch_workflow r path branch w).0 ≡ log w

module _ {W : Type 0} (log : W → List Removal) (before held : List Removal) where
  -- `made` was made since, and each thing has its cleanup on the stack.
  pub record Balanced (made : List Removal) (pr : Progress W) : Type 0 where
    pub logged : log pr.world ≡ held ++ made
    pub tracked : removals pr.stack ≡ before ++ made

  -- But the last thing made, whose cleanup could not be pushed.
  pub record Short (made : List Removal) (last : Removal) (pr : Progress W) : Type 0 where
    pub logged : log pr.world ≡ held ++ (made ++ last ∷ [])
    pub tracked : removals pr.stack ≡ before ++ made

  abbrev pub Stopped : Progress W → Type 0
  Stopped pr =
      ((made : List Removal) × Balanced made pr)
      ⊎ ((made : List Removal) × (last : Removal) × Short made last pr)

  -- At the end of a stage; an error may leave the last thing without its cleanup.
  abbrev pub Post : {A : Type 0} → Stage W A → Type 0
  Post (go a pr) = (made : List Removal) × Balanced made pr
  Post (stop pr e) = Stopped pr

  pub bind-Post :
      {A B : Type 0} (st : Stage W A) (f : A → Progress W → Stage W B)
      → Post st
      → ((a : A) (pr : Progress W) (made : List Removal) → Balanced made pr → Post (f a pr))
      → Post (st >>= f)
  bind-Post (go a pr) f h k = k a pr h.0 h.1
  bind-Post (stop pr e) f h k = h

module _ {W : Type 0} (env : Env W) (gh : GitHubProvisioner W) (plan : GitHubProvisionPlan)
    (log : W → List Removal) (obs : Observes env gh log) (before held : List Removal) where
  push-log : (step : CleanupStep) (s : Stack) (w : W) → log (push env step s w).1 ≡ log w
  push-log step s w = push-world env log step s w obs.context obs.save

  push_then-Post :
      {A : Type 0} (name : Text) (kind : ResourceKind) (params : Params) (a : A) (pr : Progress W)
      (made : List Removal)
      → log pr.world ≡ held ++ (made ++ (kind, params) ∷ [])
      → removals pr.stack ≡ before ++ made
      → Post log before held (push_then env gh plan name kind params a pr)
  unfolding push_then
  push_then-Post name kind params a pr made l t =
      elim (push_settled env cleanup pr.stack pr.world) [
        | inl q ↦
            rw (push_then, q.accepted)
              (
                made ++ (kind, params) ∷ [],
                record {
                  logged = push-log cleanup pr.stack pr.world ∙ l;
                  tracked = rw q.grown (
                      unfold begin_push in
                      rw (map-append removal pr.stack.steps (cleanup ∷ []), t)
                        (append_assoc before made ((kind, params) ∷ [])));
                },
              )
        | inr (e, q, same) ↦
            rw (push_then, q)
              (inr (
                made,
                (kind, params),
                record { logged = push-log cleanup pr.stack pr.world ∙ l; tracked = rw same t },
              ))
      ]
    where
      cleanup : CleanupStep
      cleanup = record { name = name; kind = kind; params = params; created_at = env.now pr.world }

  -- A stage that made a thing, with `more` at GitHub, pushes its removal.
  made_then-Post :
      {A : Type 0} (name : Text) (kind : ResourceKind) (params : Params) (a : A) (pr : Progress W)
      (w : W) (report : GitHubProvisionReport) (made : List Removal)
      → log w ≡ log pr.world ++ (kind, params) ∷ []
      → Balanced log before held made pr
      → Post log before held
          (push_then env gh plan name kind params a (record pr { world = w; report = report }))
  made_then-Post name kind params a pr w report made grown b =
      push_then-Post name kind params a (record pr { world = w; report = report }) made
        (grown ∙ rw b.logged (append_assoc held made ((kind, params) ∷ []))) b.tracked

  -- A stage whose call failed.
  failed-Stopped :
      (pr : Progress W) (w : W) (made : List Removal)
      → log w ≡ log pr.world
      → Balanced log before held made pr
      → Stopped log before held (record pr { world = w })
  failed-Stopped pr w made same b =
      inl (made, record { logged = same ∙ b.logged; tracked = b.tracked })

  pub make_repo-Post :
      (pr : Progress W) (made : List Removal)
      → Balanced log before held made pr
      → Post log before held (make_repo env gh plan pr)
  unfolding make_repo
  make_repo-Post pr made b = elim (Result-cases (gh.create_repo request pr.world).1) [
    | inl (repo, q) ↦
        rw (make_repo, q) (made_then-Post _ _ _ _ pr _ _ made (obs.repo request pr.world repo q) b)
    | inr (e, q) ↦ rw (make_repo, q) (failed-Stopped pr _ made (obs.no_repo request pr.world e q) b)
  ]
    where
      request : CreateRepoRequest
      request = record {
        owner = plan.owner;
        name = plan.repo;
        visibility = plan.visibility;
        auto_init = true;
      }

  pub make_deploy_key-Post :
      (ref : RepoRef) (pr : Progress W) (made : List Removal)
      → Balanced log before held made pr
      → Post log before held (make_deploy_key env gh plan ref pr)
  unfolding make_deploy_key
  make_deploy_key-Post ref pr made b =
      elim (Result-cases (gh.add_deploy_key ref request pr.world).1) [
        | inl (key, q) ↦
            rw (make_deploy_key, q)
              (made_then-Post _ _ _ _ pr _ _ made (obs.key ref request pr.world key q) b)
        | inr (e, q) ↦
            rw (make_deploy_key, q)
              (failed-Stopped pr _ made (obs.no_key ref request pr.world e q) b)
      ]
    where
      request : DeployKeyRequest
      request = record {
        title = codes "Webox deploy key";
        key = plan.deploy_public_key;
        read_only = false;
      }

  make_secret-Post :
      (ref : RepoRef) (name : Text) (pr : Progress W) (made : List Removal)
      → Balanced log before held made pr
      → Post log before held (make_secret env gh plan ref name pr)
  unfolding make_secret
  make_secret-Post ref name pr made b =
      let value : Text = value_of (lookup name plan.secrets) in
      elim (Option-cases (gh.set_actions_secret ref name value pr.world).1) [
        | inl q ↦
            rw (make_secret, q)
              (made_then-Post _ _ _ _ pr _ pr.report made (obs.secret ref name value pr.world q) b)
        | inr (e, q) ↦
            rw (make_secret, q)
              (failed-Stopped pr _ made (obs.no_secret ref name value pr.world e q) b)
      ]

  pub make_secrets-Post :
      (names : List Text) (ref : RepoRef) (pr : Progress W) (made : List Removal)
      → Balanced log before held made pr
      → Post log before held (make_secrets env gh plan names ref pr)
  unfolding make_secrets
  make_secrets-Post [] ref pr made b = (made, b)
  make_secrets-Post (name ∷ names) ref pr made b =
      bind-Post log before held _ _ (make_secret-Post ref name pr made b)
        (λ r pr' made' b'. make_secrets-Post names r pr' made' b')

  pub make_workflow-Post :
      (ref : RepoRef) (pr : Progress W) (made : List Removal)
      → Balanced log before held made pr
      → Post log before held (make_workflow env gh plan ref pr)
  unfolding make_workflow
  make_workflow-Post ref pr made b =
      elim (Option-cases (gh.commit_workflow_file ref request pr.world).1) [
        | inl q ↦
            rw (make_workflow, q)
              (made_then-Post _ _ _ _ pr _ _ made (obs.file ref request pr.world q) b)
        | inr (e, q) ↦
            rw (make_workflow, q)
              (failed-Stopped pr _ made (obs.no_file ref request pr.world e q) b)
      ]
    where
      request : CommitFileRequest
      request = record {
        path = plan.workflow_path;
        branch = plan.branch;
        message = codes "Add Webox deploy workflow";
        content = plan.workflow_content;
      }

  pub dispatch-Post :
      (ref : RepoRef) (pr : Progress W) (made : List Removal)
      → Balanced log before held made pr
      → Post log before held (dispatch env gh plan ref pr)
  unfolding dispatch
  dispatch-Post ref pr made b =
      let same = obs.run ref plan.workflow_path plan.branch pr.world in
      elim (Result-cases (gh.dispatch_workflow ref plan.workflow_path plan.branch pr.world).1) [
        | inl (d, q) ↦
            rw (dispatch, q) (made, record { logged = same ∙ b.logged; tracked = b.tracked })
        | inr (e, q) ↦ rw (dispatch, q) (failed-Stopped pr _ made same b)
      ]
