-- ===== src/GitHub/Tests.antt =====
-- The wait on a run that completes at the third look, a server that is down, and a log.
use webox.GitHub.Calls.{remove_github_workflow_file}
use webox.GitHub.Calls.Count.{requests_of}
use webox.Prelude.{
  ◌≡◌, refl, sym, ap, Option, ◌↔◌, [], ◌∷◌, ◌++◌, ◌+◌, All, length, ◌==◌, ℕ, suc, ◌≤◌, none, some,
  leb, if◌then◌else◌,
}
use webox.Prelude.Int.{pos}
use webox.Prelude.Text.{Text, codes, text_eq}
use webox.Errors.{Result, ok, err, sentinel, wrap, gh_unavailable, run_not_found}
use webox.GitHub.Logs.{parse_gh_log_lines}
use webox.GitHub.Logs.Lines.{IsRedacted, parse_gh_log_lines-IsRedacted}
use webox.GitHub.Rest.{
  Transport, Reading, failed, map_http_error, steps_answer, do_json, with_fallback,
}
use webox.GitHub.Calls.{Codec}
use webox.GitHub.Calls.Count.{Call, removes_file, perform, sent-perform}
use webox.GitHub.Poll.{WorkflowRun, Outcome, Polling, interval_of, wait_for_workflow_completion}
use webox.GitHub.Answers.{Answers, wait_for_workflow_completion_iff}

abbrev run : Text → WorkflowRun
run status = record {
  id = pos 7;
  run_number = pos 1;
  name = [];
  status = status;
  conclusion = codes "success";
}

abbrev counter : Polling ℕ
counter = record {
  get_latest_run =
      λ w. (ok (some (run (if leb 2 w then codes "completed" else codes "queued"))), w);
  sleep = λ d w. (none, suc w);
}

abbrev done : Outcome
done = record { run = some (run (codes "completed")); error = none }

polled : wait_for_workflow_completion (some counter) 3 (pos 0) 0 ≡ some done
unfolding wait_for_workflow_completion text_eq
polled = refl

too_early : wait_for_workflow_completion (some counter) 2 (pos 0) 0 ≡ none
unfolding wait_for_workflow_completion text_eq
too_early = refl

wait_for_workflow_completion_iff_example : Answers counter (interval_of (pos 0)) 0 done ↔ (
    (n : ℕ) × ((fuel : ℕ)
      → n ≤ fuel
      → wait_for_workflow_completion (some counter) fuel (pos 0) 0 ≡ some done))
wait_for_workflow_completion_iff_example = wait_for_workflow_completion_iff counter (pos 0) 0 done

-- A server that counts the requests and is always down.
abbrev down : Transport ℕ
down = record {
  base_url = codes "https://api";
  token_source = some (λ w. (w, ok (codes "t")));
  build_error = λ url. none;
  http_do = λ req w. (suc w, ok (503, ok (codes "busy")));
  sleep = λ d w. (w, none);
  jitter = λ n w. (w, 0);
  redact = λ s. s;
  path_escape = λ s. s;
}

abbrev reading : Reading ℕ
reading = record { zero_value = 0; out = none }

abbrev after_token : Option (ℕ → ℕ × Result Text) → ℕ → ℕ
after_token none w = w
after_token (some source) w = (source w).0

abbrev codec : Codec ℕ
codec = record {
  marshal = λ body. ok (codes "{}");
  query_escape = λ s. s;
  encode_base64 = λ s. s;
  encrypt_secret = λ key value w. (w, ok value);
  repository = record { zero_value = record { id = pos 0; name = []; login = [] }; out = none };
  deploy_key = record { zero_value = record { id = pos 0; title = [] }; out = none };
  public_key = record { zero_value = record { key_id = []; key = [] }; out = none };
  dispatch = record { zero_value = record { run_id = pos 0 }; out = none };
  runs = record { zero_value = []; out = none };
  sha = record { zero_value = codes "abc"; out = none };
}

abbrev up : Transport ℕ
up = record down { http_do = λ req w. (suc w, ok (200, ok [])) }

abbrev removal : Call
removal =
    removes_file (record { owner = codes "me"; name = codes "app" }) (codes "ci.yml") (codes "main")

sent-perform_example : perform up codec removal 0 ≤ 6 + 0
unfolding requests_of
sent-perform_example =
    sent-perform up codec (λ w. w) (λ req w. refl) (λ d w. refl) (λ n w. refl)
      (λ source w q. sym (ap (λ o. after_token o w) q)) (λ key value w. refl) removal 0

two_requests : perform up codec removal 0 ≡ 2
unfolding perform remove_github_workflow_file
two_requests = refl

three_requests : (do_json down (codes "GET") (codes "/x") none reading 0).0 ≡ 3
unfolding do_json
three_requests = refl

-- The body of another error is searched for the number, too.
not_found_by_body :
    steps_answer (failed (map_http_error (λ s. s) 400 (codes "bad id 404")))
    ≡ err (sentinel run_not_found)
unfolding steps_answer map_http_error
not_found_by_body = refl

-- Two lines, of which the last is kept.
abbrev log_text : Text
log_text = codes "build" ++ 9 ∷ (codes "test" ++ 9 ∷ (codes "ok" ++ 10 ∷ codes "noise"))

parse_gh_log_lines-IsRedacted_example :
    All (IsRedacted (λ s. s)) (parse_gh_log_lines (λ s. s) log_text (pos 1))
    × (length (parse_gh_log_lines (λ s. s) log_text (pos 1)) ≤ 1)
parse_gh_log_lines-IsRedacted_example = parse_gh_log_lines-IsRedacted (λ s. s) log_text (pos 1) 0

last_line :
    parse_gh_log_lines (λ s. s) log_text (pos 1)
    ≡ record { job_name = []; step_name = []; raw = codes "noise" } ∷ []
unfolding parse_gh_log_lines
last_line = refl

abbrev answer : ℕ → ℕ → ℕ × Result ℕ
answer t w = (t, if t == 1 then err (wrap (sentinel gh_unavailable)) else ok t)

no_gh : with_fallback 1 (some 2) answer 0 ≡ (2, ok 2)
unfolding with_fallback
no_gh = refl
