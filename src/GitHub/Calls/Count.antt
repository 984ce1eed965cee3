-- ===== src/GitHub/Calls/Count.antt =====
-- How many requests the calls of the REST transport send.
use webox.Prelude.{
  ◌≡◌, ◌≤◌, inl, inr, ℕ, suc, ◌+◌, ◌*◌, List, Option, some, [], ◌∷◌, arith, if◌then◌else◌,
}
use webox.Prelude.Int.{ℤ, pos, leb_ℤ}
use webox.Prelude.Text.{Text}
use webox.Errors.{Result, Result-cases}
use webox.Wizard.GitHubPlan.{RepoRef, CreateRepoRequest, DeployKeyRequest, CommitFileRequest}
use webox.GitHub.Steps.{JobResponse}
use webox.GitHub.Logs.{WorkflowLogLine}
use webox.GitHub.Rest.{
  get_workflow_steps, Request, Transport, Reading, do_json, lacks_part, Attempt, answered, failed,
}
use webox.GitHub.Rest.Attempts.{sent-do_json}
use webox.GitHub.Calls.{
  Codec, LatestRunRequest, lacks_file, create_repo, add_deploy_key, set_actions_secret, put_secret,
  dispatch_workflow, get_latest_run, commit_workflow_file, remove_github_repo,
  remove_github_deploy_key, remove_github_actions_secret, remove_github_workflow_file, delete_file,
  ActionsPublicKey, send_delete, send_file, send, get_workflow_logs,
}

-- A call with its arguments.
pub data Call : Type 0 where
  creates : CreateRepoRequest → Call
  adds_key : RepoRef → DeployKeyRequest → Call
  sets_secret : RepoRef → Text → Text → Call
  dispatches : RepoRef → Text → Text → List (Text × Text) → Call
  looks_up : RepoRef → LatestRunRequest → Call
  commits : RepoRef → CommitFileRequest → Call
  removes_repo : RepoRef → Call
  removes_key : RepoRef → ℤ → Call
  removes_secret : RepoRef → Text → Call
  removes_file : RepoRef → Text → Text → Call
  lists_steps : Reading (List JobResponse) → RepoRef → ℤ → Call
  reads_logs : Call

-- The world after a call.
unfoldable pub perform : {W : Type 0} → Transport W → Codec W → Call → W → W
perform t c (creates req) w = (create_repo t c req w).0
perform t c (adds_key repo req) w = (add_deploy_key t c repo req w).0
perform t c (sets_secret repo name value) w = (set_actions_secret t c repo name value w).0
perform t c (dispatches repo workflow ref inputs) w =
    (dispatch_workflow t c repo workflow ref inputs w).0
perform t c (looks_up repo req) w = (get_latest_run t c repo req w).0
perform t c (commits repo req) w = (commit_workflow_file t c repo req w).0
perform t c (removes_repo repo) w = (remove_github_repo t c repo w).0
perform t c (removes_key repo key_id) w = (remove_github_deploy_key t c repo key_id w).0
perform t c (removes_secret repo name) w = (remove_github_actions_secret t c repo name w).0
perform t c (removes_file repo path branch) w =
    (remove_github_workflow_file t c repo path branch w).0
perform t c (lists_steps jobs repo run_id) w = (get_workflow_steps t jobs repo run_id w).0
perform t c reads_logs w = (get_workflow_logs {A = List WorkflowLogLine} w).0

-- The requests that a call makes if each is answered at once, and none where it is refused.
unfoldable pub requests_of : Call → ℕ
unfolding lacks_part
requests_of (creates req) = 1
requests_of (adds_key repo req) = if lacks_part repo then 0 else 1
requests_of (sets_secret repo name value) = if lacks_part repo then 0 else 2
requests_of (dispatches repo workflow ref inputs) = if lacks_part repo then 0 else 1
requests_of (looks_up repo req) = if lacks_part repo then 0 else 1
requests_of (commits repo req) = if lacks_part repo then 0 else if lacks_file req then 0 else 1
requests_of (removes_repo repo) = 1
requests_of (removes_key repo key_id) = 1
requests_of (removes_secret repo name) = 1
requests_of (removes_file repo path branch) = 2
requests_of (lists_steps jobs repo run_id) =
    if lacks_part repo then 0 else if leb_ℤ run_id (pos 0) then 0 else 1
requests_of reads_logs = 0

module _ {W : Type 0} (t : Transport W) (c : Codec W) (sent : W → ℕ)
    (asked : (req : Request) (w : W) → sent (t.http_do req w).0 ≡ suc (sent w))
    (slept : (d : ℕ) (w : W) → sent (t.sleep d w).0 ≡ sent w)
    (drawn : (n : ℕ) (w : W) → sent (t.jitter n w).0 ≡ sent w)
    (given : (source : W → W × Result Text) (w : W)
      → t.token_source ≡ some source
      → sent (source w).0 ≡ sent w)
    (sealed : (key value : Text) (w : W) → sent (c.encrypt_secret key value w).0 ≡ sent w) where
  three :
      {A : Type 0} (method path : Text) (body : Option (Result Text)) (r : Reading A) (w : W)
      → sent (do_json t method path body r w).0 ≤ 3 + sent w
  three = sent-do_json t sent asked slept drawn given

  sent-send :
      (method path : Text) (body : Option (Result Text)) (w : W)
      → sent (send t c method path body w).0 ≤ 3 + sent w
  unfolding send
  sent-send method path body w = three method path body _ w

  sent-put_secret :
      (repo : RepoRef) (name value : Text) (w : W) (key : Attempt ActionsPublicKey)
      → sent (put_secret t c repo name value w key).0 ≤ 3 + sent w
  unfolding put_secret
  sent-put_secret repo name value w (failed f) = omega arith
  sent-put_secret repo name value w (answered key) =
      let kept = sealed key.key value w in
      elim (Result-cases (c.encrypt_secret key.key value w).1) [
        | inr (e, q) ↦ rw (put_secret, q) (omega (arith, kept))
        | inl (text, q) ↦ rw (put_secret, q) (omega (arith, kept, sent-send _ _ _ _))
      ]

  sent-send_delete :
      (repo : RepoRef) (path branch sha : Text) (w : W)
      → sent (send_delete t c repo path branch sha w).0 ≤ 3 + sent w
  unfolding send_delete
  sent-send_delete repo path branch sha w = grind (arith, sent-send)

  sent-send_file :
      (repo : RepoRef) (req : CommitFileRequest) (w : W)
      → sent (send_file t c repo req w).0 ≤ 3 + sent w
  unfolding send_file
  sent-send_file repo req w = grind (arith, sent-send)

  sent-delete_file :
      (repo : RepoRef) (path branch : Text) (w : W) (sha : Attempt Text)
      → sent (delete_file t c repo path branch w sha).0 ≤ 3 + sent w
  unfolding delete_file
  sent-delete_file repo path branch w (failed f) = omega arith
  sent-delete_file repo path branch w (answered []) = omega arith
  sent-delete_file repo path branch w (answered (x ∷ sha)) =
      sent-send_delete repo path branch (x ∷ sha) w

  -- Every call of the REST transport sends at most three requests for each one that it needs, and
  -- none if its repository, its run or its file is refused, or it asks for logs; here a request counts for one, and the sleep, the
  -- jitter, the token source and the sealing of a secret send none.
  pub sent-perform :
      (call : Call) (w : W) → sent (perform t c call w) ≤ 3 * requests_of call + sent w
  unfolding perform requests_of create_repo add_deploy_key set_actions_secret dispatch_workflow
      get_latest_run commit_workflow_file remove_github_repo remove_github_deploy_key
      remove_github_actions_secret remove_github_workflow_file get_workflow_steps
  sent-perform (creates req) w = grind (arith, three)
  sent-perform (adds_key repo req) w = grind (arith, three)
  sent-perform (sets_secret repo name value) w = grind (arith, three, sent-put_secret)
  sent-perform (dispatches repo workflow ref inputs) w = grind (arith, three)
  sent-perform (looks_up repo req) w = grind (arith, three)
  sent-perform (commits repo req) w = grind (arith, sent-send_file)
  sent-perform (removes_repo repo) w = grind (arith, sent-send)
  sent-perform (removes_key repo key_id) w = grind (arith, sent-send)
  sent-perform (removes_secret repo name) w = grind (arith, sent-send)
  sent-perform (removes_file repo path branch) w = grind (arith, three, sent-delete_file)
  sent-perform (lists_steps jobs repo run_id) w = grind (arith, three)
  sent-perform reads_logs w = omega arith
