-- ===== src/GitHub/Rest/Attempts.antt =====
-- How often doJSON asks, and when it asks again.
use webox.Prelude.{
  ◌≡◌, refl, ◌∙◌, ◌≤◌, ◌⊎◌, inl, inr, ℕ, zero, suc, ◌+◌, ◌||◌, Option, none, some, arith,
  Option-cases, Bool-cases,
}
use webox.Prelude.Text.{Text, is_empty}
use webox.Errors.{is, rate_limited, http_server_error, Result, ok, err, Result-cases}
use webox.GitHub.Rest.{
  Request, Failure, Attempt, answered, failed, Transport, Reading, map_http_error, retry_delay,
  do_once, pause, do_attempts, with_token, do_json,
}

-- A status is answered with a retriable error exactly when it is a rate limit or a server error.
pub map_http_error-retriable :
    (redact : Text → Text) (status : ℕ) (raw : Text)
    → let f = map_http_error redact status raw in
      f.retriable ≡ (is f.error rate_limited || is f.error http_server_error)
unfolding map_http_error is
map_http_error-retriable redact status raw = ground arith

pub Attempt-cases :
    {A : Type 0} (a : Attempt A) → ((x : A) × (a ≡ answered x)) ⊎ ((f : Failure) × (a ≡ failed f))
Attempt-cases (answered x) = inl (x, refl)
Attempt-cases (failed f) = inr (f, refl)

module _ {W : Type 0} (t : Transport W) (sent : W → ℕ)
    (asked : (req : Request) (w : W) → sent (t.http_do req w).0 ≡ suc (sent w))
    (slept : (d : ℕ) (w : W) → sent (t.sleep d w).0 ≡ sent w)
    (drawn : (n : ℕ) (w : W) → sent (t.jitter n w).0 ≡ sent w)
    (given : (source : W → W × Result Text) (w : W)
      → t.token_source ≡ some source
      → sent (source w).0 ≡ sent w) where
  sent-pause : (n : ℕ) (w : W) → sent (pause t n w).0 ≡ sent w
  unfolding pause retry_delay
  sent-pause zero w = refl
  sent-pause (suc n) w = slept _ _ ∙ drawn _ w

  sent-do_once :
      {A : Type 0} (req : Request) (r : Reading A) (w : W)
      → sent (do_once t req r w).0 ≤ suc (sent w)
  unfolding do_once
  sent-do_once req r w = elim (Option-cases (t.build_error req.url)) [
    | inr (e, q) ↦ rw (do_once, q) (omega arith)
    | inl q ↦ rw (do_once, q) (omega (arith, asked req w))
  ]

  sent-do_attempts :
      {A : Type 0} (n k : ℕ) (req : Request) (r : Reading A) (last : Attempt A) (w : W)
      → sent (do_attempts t n k req r last w).0 ≤ n + sent w
  unfolding do_attempts
  sent-do_attempts zero k req r last w = omega arith
  sent-do_attempts (suc n) k req r last w =
      let v : W = (pause t k w).0 in
      let kept : sent v ≡ sent w = sent-pause k w in
      let once : sent (do_once t req r v).0 ≤ suc (sent v) = sent-do_once req r v in
      elim (Option-cases (pause t k w).1) [
        | inr (e, q) ↦ rw (do_attempts, q) (omega (arith, kept))
        | inl q ↦ elim (Attempt-cases (do_once t req r v).1) [
          | inl (a, s) ↦ rw (do_attempts, q, s) (omega (arith, kept, once))
          | inr (f, s) ↦ elim (Bool-cases f.retriable) [
            | inr no_more ↦ rw (do_attempts, q, s, no_more) (omega (arith, kept, once))
            | inl again ↦
                rw (do_attempts, q, s, again)
                  (omega (
                    arith,
                    kept,
                    once,
                    sent-do_attempts n (suc k) req r (failed f) (do_once t req r v).0,
                  ))
          ]
        ]
      ]

  sent-with_token :
      {A : Type 0} (method path : Text) (body : Option (Result Text)) (r : Reading A) (token : Text)
      (w : W)
      → sent (with_token t method path body r token w).0 ≤ 3 + sent w
  unfolding with_token
  sent-with_token method path none r token w = sent-do_attempts 3 0 _ r (answered r.zero_value) w
  sent-with_token method path (some (err e)) r token w = omega arith
  sent-with_token method path (some (ok payload)) r token w =
      sent-do_attempts 3 0 _ r (answered r.zero_value) w

  -- doJSON sends at most three requests, whatever the answers, if a request counts for one, and the
  -- sleep, the jitter and the token source send none.
  pub sent-do_json :
      {A : Type 0} (method path : Text) (body : Option (Result Text)) (r : Reading A) (w : W)
      → sent (do_json t method path body r w).0 ≤ 3 + sent w
  unfolding do_json
  sent-do_json method path body r w = elim (Option-cases t.token_source) [
    | inl q ↦ rw (do_json, q) (omega arith)
    | inr (source, q) ↦
        (let kept : sent (source w).0 ≡ sent w = given source w q in
          elim (Result-cases (source w).1) [
            | inr (e, s) ↦ rw (do_json, q, s) (omega (arith, kept))
            | inl (token, s) ↦ elim (Bool-cases (is_empty token)) [
              | inl blank ↦ rw (do_json, q, s, blank) (omega (arith, kept))
              | inr filled ↦
                  rw (do_json, q, s, filled)
                    (omega (arith, kept, sent-with_token method path body r token (source w).0))
            ]
          ])
  ]
