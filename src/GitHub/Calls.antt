-- ===== src/GitHub/Calls.antt =====
-- The calls of the REST transport: services/github/rest.go, and its halves of contents.go and
-- cleanup.go. GetWorkflowSteps stands in Rest. Descriptions of repositories are left out.
pub mod Count
use webox.Prelude.{
  ℕ, Bool, true, false, ◌||◌, List, [], ◌∷◌, ◌++◌, Option, none, some, if◌then◌else◌, neg,
}
use webox.Prelude.Int.{ℤ}
use webox.Prelude.Decimal.{format_int}
use webox.Prelude.Text.{Text, codes, is_empty, text_eq}
use webox.Errors
use webox.Errors.{
  Error, Result, ok, err, sentinel, wrap, invalid_repo_ref, invalid_commit_file_request,
  workflow_file_missing_sha, pat_scope_insufficient, workflow_dispatch_failed,
}
use webox.Wizard.GitHubPlan.{
  RepoRef, Repository, CreateRepoRequest, DeployKeyRequest, DeployKey, CommitFileRequest,
  WorkflowDispatch,
}
use webox.GitHub.Poll.{WorkflowRun}
use webox.GitHub.Rest.{Transport, Reading, Attempt, answered, failed, do_json, lacks_part}

-- The values that a body holds.
pub data Value : Type 0 where
  text : Text → Value
  flag : Bool → Value
  texts : List (Text × Text) → Value

pub record RestRepository : Type 0 where
  pub id : ℤ
  pub name : Text
  pub login : Text

pub record ActionsPublicKey : Type 0 where
  pub key_id : Text
  pub key : Text

pub record LatestRunRequest : Type 0 where
  pub branch : Text
  pub event : Text

-- Packages encoding/json, encoding/base64 and net/url, and the sealed box of secret.go.
pub record Codec (W : Type 0) : Type 0 where
  pub marshal : List (Text × Value) → Result Text
  pub query_escape : Text → Text
  pub encode_base64 : Text → Text
  pub encrypt_secret : Text → Text → W → W × Result Text
  pub repository : Reading RestRepository
  pub deploy_key : Reading DeployKey
  pub public_key : Reading ActionsPublicKey
  pub dispatch : Reading WorkflowDispatch
  pub runs : Reading (List WorkflowRun)
  pub sha : Reading Text

-- No `out` is given.
abbrev nothing : Reading ℕ
nothing = record { zero_value = 0; out = none }

abbrev result_of : {A B : Type 0} → (A → Result B) → Attempt A → Result B
result_of read (answered a) = read a
result_of read (failed f) = err f.error

abbrev error_of : {A : Type 0} → Attempt A → Option Error
error_of (answered a) = none
error_of (failed f) = some f.error

-- restRepository.repository
abbrev pub repository_of : RestRepository → Repository
repository_of r = record { id = r.id; owner = r.login; name = r.name }

abbrev pub first_run : List WorkflowRun → Option WorkflowRun
first_run [] = none
first_run (run ∷ runs) = some run

abbrev pub visibility_of : Text → Text
visibility_of visibility = if is_empty visibility then codes "private" else visibility

abbrev dispatch_answer : Attempt WorkflowDispatch → Result WorkflowDispatch
dispatch_answer (answered d) = ok d
dispatch_answer (failed f) = err (Errors.join (sentinel workflow_dispatch_failed) f.error)

-- validateCommitFileRequest
abbrev pub lacks_file : CommitFileRequest → Bool
lacks_file req = is_empty req.path || is_empty req.content

-- GetWorkflowLogs
abbrev pub get_workflow_logs : {A W : Type 0} → W → W × Result A
get_workflow_logs w = (w, err (wrap (sentinel pat_scope_insufficient)))

module _ {W : Type 0} (t : Transport W) (c : Codec W) where
  abbrev pub repo_path : RepoRef → Text
  repo_path repo = t.path_escape repo.owner ++ b'/' ∷ t.path_escape repo.name

  abbrev pub under : RepoRef → Text → Text
  under repo rest = codes "/repos/" ++ (repo_path repo ++ rest)

  -- A call about a repository, which is refused first if its reference lacks a part.
  unfoldable pub on_repo : {A : Type 0} → RepoRef → (W → W × Result A) → W → W × Result A
  unfolding lacks_part
  on_repo repo call w = if lacks_part repo then (w, err (sentinel invalid_repo_ref)) else call w

  unfoldable pub on_repo_only : RepoRef → (W → W × Option Error) → W → W × Option Error
  unfolding lacks_part
  on_repo_only repo call w =
      if lacks_part repo then (w, some (sentinel invalid_repo_ref)) else call w

  -- A call that gives an error only.
  unfoldable pub send : Text → Text → Option (Result Text) → W → W × Option Error
  unfolding do_json
  send method path body w =
      let out = do_json t method path body nothing w in (out.0, error_of out.1)

  unfoldable pub create_repo : CreateRepoRequest → W → W × Result Repository
  unfolding do_json text_eq send on_repo on_repo_only
  create_repo req w =
      let path : Text =
        if is_empty req.owner
        then codes "/user/repos"
        else codes "/orgs/" ++ (t.path_escape req.owner ++ codes "/repos") in
      let body : Result Text = c.marshal (
        (codes "name", text req.name)
        ∷ (codes "private", flag (neg (text_eq (visibility_of req.visibility) (codes "public"))))
        ∷ (codes "auto_init", flag req.auto_init)
        ∷ []) in
      let out = do_json t (codes "POST") path (some body) c.repository w in
      (out.0, result_of (λ r. ok (repository_of r)) out.1)

  unfoldable pub add_deploy_key : RepoRef → DeployKeyRequest → W → W × Result DeployKey
  unfolding do_json lacks_part send on_repo on_repo_only
  add_deploy_key repo req = on_repo repo λ w.
      let body : Result Text = c.marshal (
        (codes "title", text req.title)
        ∷ (codes "key", text req.key)
        ∷ (codes "read_only", flag req.read_only)
        ∷ []) in
      let out = do_json t (codes "POST") (under repo (codes "/keys")) (some body) c.deploy_key w in
      (out.0, result_of ok out.1)

  -- SetActionsSecret after its first request.
  unfoldable pub put_secret :
      RepoRef → Text → Text → W → Attempt ActionsPublicKey → W × Option Error
  unfolding do_json send on_repo on_repo_only
  put_secret repo name value w (failed f) = (w, some f.error)
  put_secret repo name value w (answered key) =
      let sealed : W × Result Text = c.encrypt_secret key.key value w in
      elim sealed.1 [
        | err e ↦ (sealed.0, some e)
        | ok encrypted ↦
            send (codes "PUT") (under repo (codes "/actions/secrets/" ++ t.path_escape name))
              (some (
                c.marshal (
                  (codes "encrypted_value", text encrypted)
                  ∷ (codes "key_id", text key.key_id)
                  ∷ [])))
              sealed.0
      ]

  unfoldable pub set_actions_secret : RepoRef → Text → Text → W → W × Option Error
  unfolding do_json lacks_part put_secret send on_repo on_repo_only
  set_actions_secret repo name value = on_repo_only repo λ w.
      let got =
        do_json t (codes "GET") (under repo (codes "/actions/secrets/public-key")) none c.public_key
          w in
      put_secret repo name value got.0 got.1

  unfoldable pub dispatch_workflow :
      RepoRef → Text → Text → List (Text × Text) → W → W × Result WorkflowDispatch
  unfolding do_json lacks_part send on_repo on_repo_only
  dispatch_workflow repo workflow_id ref inputs = on_repo repo λ w.
      let extra : List (Text × Value) = elim inputs [
        | [] ↦ []
        | i ∷ is ↦ (codes "inputs", texts (i ∷ is)) ∷ []
      ] in
      let path : Text =
        under repo
          (codes "/actions/workflows/" ++ (t.path_escape workflow_id ++ codes "/dispatches")) in
      let out =
        do_json t (codes "POST") path (some (c.marshal ((codes "ref", text ref) ∷ extra)))
          c.dispatch w in
      (out.0, dispatch_answer out.1)

  -- url.Values.Encode puts the keys in order.
  abbrev query_part : Text → Text → Text
  query_part key value =
      if is_empty value then [] else key ++ b'=' ∷ (c.query_escape value ++ codes "&")

  unfoldable pub get_latest_run : RepoRef → LatestRunRequest → W → W × Result (Option WorkflowRun)
  unfolding do_json lacks_part send on_repo on_repo_only
  get_latest_run repo req = on_repo repo λ w.
      let query : Text =
        query_part (codes "branch") req.branch
        ++ (query_part (codes "event") req.event ++ codes "per_page=1") in
      let out =
        do_json t (codes "GET") (under repo (codes "/actions/runs?" ++ query)) none c.runs w in
      (out.0, result_of (λ runs. ok (first_run runs)) out.1)

  -- commitFileBody
  unfoldable pub commit_file_body : CommitFileRequest → List (Text × Value)
  commit_file_body req =
      let message : Text =
        if is_empty req.message then codes "Add Webox deploy workflow" else req.message in
      (codes "message", text message)
      ∷ (codes "content", text (c.encode_base64 req.content))
      ∷ (if is_empty req.branch then [] else (codes "branch", text req.branch) ∷ [])

  unfoldable pub send_file : RepoRef → CommitFileRequest → W → W × Option Error
  unfolding send commit_file_body
  send_file repo req =
      send (codes "PUT") (under repo (codes "/contents/" ++ t.path_escape req.path))
        (some (c.marshal (commit_file_body req)))

  unfoldable pub commit_workflow_file : RepoRef → CommitFileRequest → W → W × Option Error
  unfolding on_repo_only send_file
  commit_workflow_file repo req = on_repo_only repo λ w.
      if lacks_file req
      then (w, some (sentinel invalid_commit_file_request))
      else send_file repo req w

  unfoldable pub remove_github_repo : RepoRef → W → W × Option Error
  unfolding do_json send on_repo on_repo_only
  remove_github_repo repo = send (codes "DELETE") (under repo []) none

  unfoldable pub remove_github_deploy_key : RepoRef → ℤ → W → W × Option Error
  unfolding do_json format_int send on_repo on_repo_only
  remove_github_deploy_key repo key_id =
      send (codes "DELETE") (under repo (codes "/keys/" ++ format_int key_id)) none

  unfoldable pub remove_github_actions_secret : RepoRef → Text → W → W × Option Error
  unfolding do_json send on_repo on_repo_only
  remove_github_actions_secret repo name =
      send (codes "DELETE") (under repo (codes "/actions/secrets/" ++ t.path_escape name)) none

  -- The second request of RemoveGitHubWorkflowFile.
  unfoldable pub send_delete : RepoRef → Text → Text → Text → W → W × Option Error
  unfolding send
  send_delete repo path branch sha =
      send (codes "DELETE") (under repo (codes "/contents/" ++ t.path_escape path)) (
        some (
          c.marshal (
            (codes "message", text (codes "Remove Webox deploy workflow"))
            ∷ (codes "sha", text sha)
            ∷ (codes "branch", text branch)
            ∷ [])))

  -- RemoveGitHubWorkflowFile after its first request.
  unfoldable pub delete_file : RepoRef → Text → Text → W → Attempt Text → W × Option Error
  unfolding send_delete
  delete_file repo path branch w (failed f) = (w, some f.error)
  delete_file repo path branch w (answered sha) =
      if is_empty sha
      then (w, some (wrap (sentinel workflow_file_missing_sha)))
      else send_delete repo path branch sha w

  unfoldable pub remove_github_workflow_file : RepoRef → Text → Text → W → W × Option Error
  unfolding do_json delete_file send on_repo on_repo_only
  remove_github_workflow_file repo path branch w =
      let contents : Text =
        codes "/contents/" ++ (t.path_escape path ++ (codes "?ref=" ++ c.query_escape branch)) in
      let got = do_json t (codes "GET") (under repo contents) none c.sha w in
      delete_file repo path branch got.0 got.1
