-- ===== src/GitHub/Rest.antt =====
-- doJSON of services/github/rest.go with its retries, GetWorkflowSteps over it, and withFallback of
-- services/github/client.go. `W` is the world outside.
pub mod Attempts
use webox.Prelude.{
  ℕ, zero, suc, ◌+◌, ◌*◌, ◌^◌, ◌/◌, Bool, true, false, ◌&&◌, List, [], ◌∷◌, ◌++◌, Option, none,
  some, if◌then◌else◌, ◌==◌, leb, ltb, neg, take,
}
use webox.Prelude.Int.{ℤ, pos, leb_ℤ}
use webox.Prelude.Decimal.{format_nat, format_int}
use webox.Prelude.Text.{Text, codes, is_empty, contains, trim_space}
use webox.Prelude.Words.{to_lower}
use webox.Errors
use webox.Errors.{
  Error, sentinel, plain, wrap, is, Result, ok, err, pat_invalid, pat_scope_insufficient,
  rate_limited, repo_exists, http_validation_failed, http_server_error, http_unexpected_status,
  gh_unavailable, run_not_found, steps_parse_error, invalid_repo_ref,
}
use webox.Wizard.GitHubPlan.{RepoRef}
use webox.GitHub.Steps.{JobResponse, Step, flatten}

pub record Request : Type 0 where
  pub method : Text
  pub url : Text
  pub token : Text
  pub payload : Option Text

-- A failed attempt: whether it is wrapped as a retriableError, and of its text what is looked for
-- later, that is, the text of an unexpected status.
pub record Failure : Type 0 where
  pub retriable : Bool
  pub error : Error
  pub message : Text

pub data Attempt (A : Type 0) : Type 0 where
  answered : A → Attempt A
  failed : Failure → Attempt A

-- The transport: its token source, nil or set, net/http (a request that cannot be built, and the
-- status with the body or the error of reading it), the sleep, the jitter below a bound, the
-- redaction and url.PathEscape.
pub record Transport (W : Type 0) : Type 0 where
  pub base_url : Text
  pub token_source : Option (W → W × Result Text)
  pub build_error : Text → Option Error
  pub http_do : Request → W → W × Result (ℕ × Result Text)
  pub sleep : ℕ → W → W × Option Error
  pub jitter : ℕ → W → W × ℕ
  pub redact : Text → Text
  pub path_escape : Text → Text

abbrev pub max_response_bytes : ℕ
max_response_bytes = 2 ^ 20

abbrev final : Error → Failure
final e = record { retriable = false; error = e; message = [] }

abbrev retry : Error → Failure
retry e = record { retriable = true; error = e; message = [] }

-- The statuses of package net/http are written as numbers. ToLower is used on ASCII needles.
unfoldable pub map_http_error : (Text → Text) → ℕ → Text → Failure
unfolding contains to_lower trim_space format_nat
map_http_error redact status raw =
    let body : Text = trim_space (redact raw) in
    let has : Text → Bool = λ t. contains (to_lower body) t in
    let of : Errors.Sentinel → Error = λ s. wrap (sentinel s) in
    if status == 401
    then final (of pat_invalid)
    else if status == 403
    then (if has (codes "rate limit")
        then retry (of rate_limited)
        else final (of pat_scope_insufficient))
    else if status == 429
    then retry (of rate_limited)
    else if status == 422
    then (if has (codes "already")
        then final (of repo_exists)
        else final (of http_validation_failed))
    else if leb 500 status
    then retry (of http_server_error)
    else record {
      retriable = false;
      error = of http_unexpected_status;
      message =
          codes "github: unexpected http status: " ++ (format_nat status ++ (codes ": " ++ body));
    }

-- How a call reads its answer: `out`, nil or set, and the value that is left if nothing is read.
pub record Reading (A : Type 0) : Type 0 where
  pub zero_value : A
  pub out : Option (Text → Result A)

read_body : {A : Type 0} → Reading A → Text → Attempt A
unfolding trim_space
read_body r raw = elim r.out [
  | none ↦ answered r.zero_value
  | some decode ↦
      if is_empty (trim_space raw)
      then answered r.zero_value
      else elim (decode raw) [ ok a ↦ answered a | err e ↦ failed (final (wrap e)) ]
]

read_status : {A : Type 0} → (Text → Text) → Reading A → ℕ → Text → Attempt A
unfolding read_body map_http_error
read_status redact r status raw =
    if leb 200 status && leb status 299
    then read_body r raw
    else failed (map_http_error redact status raw)

-- The response, of which the first MiB is read.
read_response : {A : Type 0} → (Text → Text) → Reading A → Result (ℕ × Result Text) → Attempt A
unfolding read_status
read_response redact r (err e) = failed (final (wrap e))
read_response redact r (ok (status, err e)) = failed (final (wrap e))
read_response redact r (ok (status, ok body)) =
    read_status redact r status (take max_response_bytes body)

abbrev pub base_retry_delay : ℕ
base_retry_delay = 200000000

-- What GetWorkflowSteps makes of the answer.
unfoldable pub steps_answer : Attempt (List JobResponse) → Result (List Step)
unfolding flatten contains is
steps_answer (failed f) =
    if is f.error http_unexpected_status && contains f.message (codes "404")
    then err (sentinel run_not_found)
    else err f.error
steps_answer (answered []) = err (sentinel run_not_found)
steps_answer (answered (job ∷ jobs)) = elim (flatten (job ∷ jobs)) [
  | [] ↦ err (sentinel steps_parse_error)
  | s ∷ ss ↦ ok (s ∷ ss)
]

-- RepoRef.validate
unfoldable pub lacks_part : RepoRef → Bool
unfolding trim_space
lacks_part repo = if is_empty (trim_space repo.owner) then true else is_empty (trim_space repo.name)

module _ {W : Type 0} (t : Transport W) where
  unfoldable pub retry_delay : ℕ → W → W × ℕ
  retry_delay attempt w =
      let base : ℕ = 2 ^ attempt * base_retry_delay in
      let j : W × ℕ = t.jitter (base / 2) w in (j.0, base + j.1)

  unfoldable pub do_once : {A : Type 0} → Request → Reading A → W → W × Attempt A
  unfolding read_response
  do_once req r w = elim (t.build_error req.url) [
    | some e ↦ (w, failed (final (wrap e)))
    | none ↦ (let out = t.http_do req w in (out.0, read_response t.redact r out.1))
  ]

  -- The sleep before an attempt that is not the first.
  pause : ℕ → W → W × Option Error
  unfolding retry_delay
  pause zero w = (w, none)
  pause (suc n) w = let d = retry_delay (suc n) w in t.sleep d.1 d.0

  -- The loop with the attempts that are left, the number of the next one, and the last failure.
  unfoldable pub do_attempts :
      {A : Type 0} → ℕ → ℕ → Request → Reading A → Attempt A → W → W × Attempt A
  unfolding do_once pause
  do_attempts zero attempt req r last w = (w, last)
  do_attempts (suc n) attempt req r last w =
      let slept : W × Option Error = pause attempt w in
      elim slept.1 [
        | some e ↦ (slept.0, failed (final e))
        | none ↦
            (let out = do_once req r slept.0 in
              elim out.1 [
                | answered a ↦ (out.0, answered a)
                | failed f ↦ elim f.retriable [
                  | true ↦ do_attempts n (suc attempt) req r (failed f) out.0
                  | false ↦ (out.0, failed f)
                ]
              ])
      ]

  abbrev refuse : {A : Type 0} → Error → W → W × Attempt A
  refuse e w = (w, failed (final e))

  -- Three attempts with a token and a payload.
  with_token :
      {A : Type 0} → Text → Text → Option (Result Text) → Reading A → Text → W → W × Attempt A
  unfolding do_attempts
  with_token method path none r token =
      do_attempts 3 0
        (record { method = method; url = t.base_url ++ path; token = token; payload = none }) r
        (answered r.zero_value)
  with_token method path (some (err e)) r token = refuse (wrap e)
  with_token method path (some (ok payload)) r token =
      do_attempts 3 0
        (record {
          method = method;
          url = t.base_url ++ path;
          token = token;
          payload = some payload;
        })
        r (answered r.zero_value)

  -- The body comes marshalled, or with the error of that; nil is none.
  unfoldable pub do_json :
      {A : Type 0} → Text → Text → Option (Result Text) → Reading A → W → W × Attempt A
  unfolding with_token
  do_json method path body r w = elim t.token_source [
    | none ↦ refuse (sentinel pat_invalid) w
    | some source ↦
        (let token : W × Result Text = source w in
          elim token.1 [
            | err e ↦ refuse (Errors.join (sentinel pat_invalid) e) token.0
            | ok text ↦
                if is_empty text
                then refuse (sentinel pat_invalid) token.0
                else with_token method path body r text token.0
          ])
  ]

  -- GetWorkflowSteps; `jobs` reads the list of jobs.
  unfoldable pub get_workflow_steps :
      Reading (List JobResponse) → RepoRef → ℤ → W → W × Result (List Step)
  unfolding do_json steps_answer lacks_part format_int
  get_workflow_steps jobs repo run_id w =
      let path : Text =
        codes "/repos/"
        ++ (t.path_escape repo.owner
            ++ b'/'
              ∷ (t.path_escape repo.name
                  ++ (codes "/actions/runs/" ++ (format_int run_id ++ codes "/jobs")))) in
      if lacks_part repo
      then (w, err (sentinel invalid_repo_ref))
      else if leb_ℤ run_id (pos 0)
      then (w, err (sentinel run_not_found))
      else (let out = do_json (codes "GET") path none jobs w in (out.0, steps_answer out.1))

-- withFallback: `run` is the call, of a transport.
unfoldable pub with_fallback :
    {T A W : Type 0} → T → Option T → (T → W → W × Result A) → W → W × Result A
unfolding is
with_fallback primary fallback run w =
    let first = run primary w in
    elim first.1 [
      | ok a ↦ (first.0, ok a)
      | err e ↦ elim fallback [
        | none ↦ (first.0, err e)
        | some other ↦ elim (is e gh_unavailable) [
          | true ↦ run other first.0
          | false ↦ (first.0, err e)
        ]
      ]
    ]
