-- ===== src/Wizard/GitHub/Tests.antt =====
-- The GitHub phase against a provisioner whose world is what it holds.
use webox.Prelude.Text.{contains, contains_code}
use webox.Prelude.Text.{contains_any}
use webox.Wizard.Workflow.{validate_workflow_field}
use webox.Prelude.{◌≡◌, refl, List, [], ◌∷◌, ◌++◌, none, some, map}
use webox.Wizard.Stack.{push}
use webox.Wizard.Step.{validate_step, has_secret, lacks_param, param, bad_key_id}
use webox.Wizard.Secret.{is_secret_shaped, is_alnum}
use webox.Prelude.Text.{lookup, text_eq, sort_texts, text_le, has_prefix}
use webox.Prelude.Decimal.{format_int, format_nat, parse_int64}
use webox.Prelude.Int.{pos}
use webox.Prelude.Text.{codes}
use webox.Errors.{ok}
use webox.Wizard.Step.{
  ResourceKind, github_repo, github_deploy_key, github_actions_secret, github_workflow_file,
}
use webox.Wizard.Stack.{Env, Stack}
use webox.Wizard.Execute.Accounts.{Removal, removals}
use webox.Wizard.GitHubPlan.{GitHubProvisionPlan, RepoRef, GitHubProvisioner, ref_of}
use webox.Wizard.GitHub.{
  Stage, go, stop, Provisioned, refused, ran, execute_github_provision, repo_params, key_params,
  secret_params, file_params, no_report,
}

abbrev quiet : Env (List Removal)
quiet = record { ctx_err = λ w. (w, none); persist = none; now = λ w. 0 }

abbrev hub : GitHubProvisioner (List Removal)
hub = record {
  create_repo = λ q w. (
    w
        ++ (
          github_repo,
          repo_params
              (ref_of q.owner q.name (record { id = pos 1; owner = q.owner; name = q.name })),
        )
          ∷ [],
    ok (record { id = pos 1; owner = q.owner; name = q.name }),
  );
  add_deploy_key = λ r q w. (
    w ++ (github_deploy_key, key_params r (pos 7)) ∷ [],
    ok (record { id = pos 7; title = q.title }),
  );
  set_actions_secret =
      λ r name value w. (w ++ (github_actions_secret, secret_params r name) ∷ [], none);
  commit_workflow_file =
      λ r q w. (w ++ (github_workflow_file, file_params r q.path q.branch) ∷ [], none);
  dispatch_workflow = λ r path branch w. (w, ok (record { run_id = pos 3 }));
}

abbrev plan : GitHubProvisionPlan
plan = record {
  owner = codes "ada";
  repo = codes "app";
  branch = codes "main";
  visibility = codes "private";
  deploy_public_key = codes "ssh-ed25519 AAAA";
  secrets = (codes "B", codes "2") ∷ (codes "A", codes "1") ∷ [];
  workflow_path = codes "deploy.yml";
  workflow_content = codes "name: webox deploy";
}

abbrev empty_stack : Stack
empty_stack = record { steps = []; wizard_id = codes "w1" }

abbrev stage_of : Provisioned (List Removal) → Stage (List Removal) RepoRef
stage_of (ran st) = st
stage_of (refused e) = stop (record { stack = empty_stack; world = []; report = no_report }) e

abbrev provisioned : Provisioned (List Removal)
provisioned = execute_github_provision quiet (some hub) plan (some empty_stack) []

abbrev kinds_of : Stage (List Removal) RepoRef → List ResourceKind
kinds_of (go r pr) = map (λ (x : Removal). x.0) (removals pr.stack)
kinds_of (stop pr e) = []

provisioned_kinds :
    kinds_of (stage_of provisioned)
    ≡ github_repo ∷ github_deploy_key ∷ github_actions_secret ∷ github_actions_secret
      ∷ github_workflow_file ∷ []
unfolding execute_github_provision validate_workflow_field contains contains_any push validate_step
    has_secret is_secret_shaped lacks_param param lookup text_eq bad_key_id format_int parse_int64
    sort_texts text_le format_nat contains_code has_prefix is_alnum
provisioned_kinds = refl
