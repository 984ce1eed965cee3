-- ===== src/Wizard/GitHubPlan.antt =====
-- The plan, the provisioner and the checks of wizard/github_execute.go, and the records of
-- services/github/types.go that they use.
use webox.Prelude.{
  Bool, true, false, ◌||◌, List, [], ◌∷◌, ◌++◌, Option, none, some, if◌then◌else◌, map,
}
use webox.Prelude.Int.{ℤ}
use webox.Prelude.Text.{Text, is_empty, sort_texts}
use webox.Errors.{is_some, Error, Result, sentinel, wrap, invalid_plan}
use webox.Wizard.Workflow.{validate_workflow_field}

pub record GitHubProvisionPlan : Type 0 where
  pub owner : Text
  pub repo : Text
  pub branch : Text
  pub visibility : Text
  pub deploy_public_key : Text
  pub secrets : List (Text × Text)
  pub workflow_path : Text
  pub workflow_content : Text

pub record RepoRef : Type 0 where
  pub owner : Text
  pub name : Text

pub record Repository : Type 0 where
  pub id : ℤ
  pub owner : Text
  pub name : Text

pub record CreateRepoRequest : Type 0 where
  pub owner : Text
  pub name : Text
  pub visibility : Text
  pub auto_init : Bool

pub record DeployKeyRequest : Type 0 where
  pub title : Text
  pub key : Text
  pub read_only : Bool

pub record DeployKey : Type 0 where
  pub id : ℤ
  pub title : Text

pub record CommitFileRequest : Type 0 where
  pub path : Text
  pub branch : Text
  pub message : Text
  pub content : Text

pub record WorkflowDispatch : Type 0 where
  pub run_id : ℤ

pub record GitHubProvisionReport : Type 0 where
  pub repository : Option Repository
  pub deploy_key : Option DeployKey
  pub workflow : Option CommitFileRequest
  pub dispatch : Option WorkflowDispatch

pub record GitHubProvisioner (W : Type 0) : Type 0 where
  pub create_repo : CreateRepoRequest → W → W × Result Repository
  pub add_deploy_key : RepoRef → DeployKeyRequest → W → W × Result DeployKey
  pub set_actions_secret : RepoRef → Text → Text → W → W × Option Error
  pub commit_workflow_file : RepoRef → CommitFileRequest → W → W × Option Error
  pub dispatch_workflow : RepoRef → Text → Text → W → W × Result WorkflowDispatch

-- RepoRef.FullName
unfoldable pub full_name : RepoRef → Text
full_name r = if is_empty r.owner then r.name else r.owner ++ b'/' ∷ r.name

-- The reference of a new repository: what the answer leaves out is taken from the request.
unfoldable pub ref_of : Text → Text → Repository → RepoRef
ref_of owner name repo = record {
  owner = if is_empty repo.owner then owner else repo.owner;
  name = if is_empty repo.name then name else repo.name;
}

abbrev refusal : Option Error
refusal = some (wrap (sentinel invalid_plan))

abbrev no_secrets : List (Text × Text) → Bool
no_secrets [] = true
no_secrets (p ∷ ps) = false

-- The loop over the required values; every refusal is an ErrInvalidPlan.
unfoldable pub bad_field : List Text → Bool
bad_field [] = false
bad_field (v ∷ vs) = is_empty v || is_some (validate_workflow_field v) || bad_field vs

unfoldable pub validate_github_provision_plan : GitHubProvisionPlan → Option Error
unfolding bad_field
validate_github_provision_plan plan =
    if bad_field
      (plan.owner ∷ plan.repo ∷ plan.branch ∷ plan.deploy_public_key ∷ plan.workflow_path ∷ [])
    then refusal
    else if is_empty plan.workflow_content
    then refusal
    else if no_secrets plan.secrets
    then refusal
    else none

-- sortedSecretNames
unfoldable pub sorted_secret_names : List (Text × Text) → List Text
sorted_secret_names secrets = sort_texts (map (λ p. p.0) secrets)
