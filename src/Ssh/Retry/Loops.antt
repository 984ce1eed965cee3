-- ===== src/Ssh/Retry/Loops.antt =====
-- ssh/retry.go and ssh/exec.go: how the two loops end.
use webox.Prelude.{
  ◌≡◌, refl, ap, sym, ◌∙◌, inl, inr, Option-cases, Bool-cases, ℕ, zero, suc, Bool, true, false,
  List, [], ◌∷◌, Option, none, some, arith, ◌==◌,
}
use webox.Prelude.Int.{ℤ, pos, ◌≤ℤ◌, ◌<ℤ◌, pos_part}
use mathlib.Core.Option
use webox.Errors.{
  Error, sentinel, join, is, pool_busy, reconnect_exhausted, Result, ok, err, Result-cases,
}
use webox.Ssh.Retry.{
  RetryableExecPolicy, normalize_retryable_exec_policy, unjittered_backoff, ExecMetrics,
  count_retry, count_busy, Env, Outcome, after_busy, try_exec, run_limited, exec_with_retry_limited,
  try_reconnect, reconnect, normalize_retry_policy,
}

-- Before its jitter each delay is positive and within the policy's MaxBackoff, also when the shift
-- overflows.
pub unjittered_backoff_lem :
    (p : RetryableExecPolicy) (attempt : ℕ)
    → (pos 0 <ℤ unjittered_backoff (normalize_retryable_exec_policy p) attempt)
      × (unjittered_backoff (normalize_retryable_exec_policy p) attempt
          ≤ℤ (normalize_retryable_exec_policy p).max_backoff)
unfolding unjittered_backoff normalize_retryable_exec_policy
unjittered_backoff_lem p attempt = ground arith

module _ {W R : Type 0} (env : Env W R) where
  -- The command ran and succeeded, with this result.
  pub record Succeeded (result : R) : Type 0 where
    pub before : W
    pub gave : (env.exec before).1 ≡ result
    pub passed : (env.exec before).2 ≡ none

  after_busy-err :
      (policy : RetryableExecPolicy) (attempt : ℕ) (last : Bool) (r : R) (e : Error)
      (m : Option ExecMetrics) (w : W) (go_on : Option ExecMetrics → W → Outcome W R)
      → (after_busy env policy attempt last r e m w go_on).err ≡ none
      → (last ≡ false)
        × (n : Option ExecMetrics) × (v : W) × (after_busy env policy attempt last r e m w go_on
            ≡ go_on n v)
  unfolding after_busy
  after_busy-err policy attempt true r e m w go_on h = absurd (ground (arith, h))
  after_busy-err policy attempt false r e m w go_on h =
      let (v, backoff) = env.jitter (unjittered_backoff policy attempt) w in
      elim (Option-cases (env.sleep backoff v).1) [
        | inl q ↦ (refl, Option.map count_retry m, (env.sleep backoff v).0, rw (after_busy, q) refl)
        | inr (s, q) ↦
            let o : after_busy env policy attempt false r e m w go_on ≡ record {
              world = (env.sleep backoff v).0;
              result = r;
              err = some s;
              metrics = Option.map count_retry m;
            } =
              rw (after_busy, q) refl in
            absurd (ground (arith, h, ap (λ x. x.err) o))
      ]

  -- The loop with an attempt to go ends without an error only with what a run of the command gave.
  pub try_exec-Succeeded :
      (policy : RetryableExecPolicy) (left attempt : ℕ) (r : R) (e : Option Error)
      (m : Option ExecMetrics) (w : W)
      → (left == 0) ≡ false
      → (try_exec env policy left attempt r e m w).err ≡ none
      → Succeeded (try_exec env policy left attempt r e m w).result
  unfolding try_exec
  try_exec-Succeeded policy zero attempt r e m w more h = absurd (ground (arith, more))
  try_exec-Succeeded policy (suc left) attempt r e m w more h =
      elim (Option-cases (env.ctx_err w).1) [
        | inr (c, q) ↦
            let o : (try_exec env policy (suc left) attempt r e m w).err ≡ some c =
              rw (try_exec, q) refl in
            absurd (ground (arith, h, o))
        | inl q ↦ elim (Option-cases (env.exec (env.ctx_err w).0).2) [
          | inl p ↦ record {
            before = (env.ctx_err w).0;
            gave = rw (try_exec, q, p) refl;
            passed = p;
          }
          | inr (f, p) ↦ elim (Bool-cases (is f pool_busy)) [
            | inr b ↦
                let o : (try_exec env policy (suc left) attempt r e m w).err ≡ some f =
                  rw (try_exec, q, p, b) refl in
                absurd (ground (arith, h, o))
            | inl b ↦
                let o : try_exec env policy (suc left) attempt r e m w
                    ≡ after_busy env policy attempt (left == 0) (env.exec (env.ctx_err w).0).1 f
                        (Option.map count_busy m) (env.exec (env.ctx_err w).0).0
                        (try_exec env policy left (suc attempt) (env.exec (env.ctx_err w).0).1
                          (some f)) =
                  rw (try_exec, q, p, b) refl in
                let (again, n, v, went) =
                  after_busy-err policy attempt (left == 0) (env.exec (env.ctx_err w).0).1 f
                    (Option.map count_busy m) (env.exec (env.ctx_err w).0).0
                    (try_exec env policy left (suc attempt) (env.exec (env.ctx_err w).0).1 (some f))
                    (sym (ap (λ x. x.err) o) ∙ h) in
                rw (o, went)
                  (try_exec-Succeeded policy left (suc attempt) (env.exec (env.ctx_err w).0).1
                    (some f) n v again (rw (← went, ← o) h))
          ]
        ]
      ]

  run_limited-Succeeded :
      (release : W → W) (policy : RetryableExecPolicy) (m : Option ExecMetrics) (w : W)
      → (run_limited env release policy m w).err ≡ none
      → Succeeded (run_limited env release policy m w).result
  unfolding run_limited normalize_retryable_exec_policy
  run_limited-Succeeded release policy m w h =
      let p = normalize_retryable_exec_policy policy in
      try_exec-Succeeded p (pos_part p.attempts) 0 env.no_result none m w (ground arith) h

  -- Without an error ExecWithRetryLimited gives only what a run of the command gave that succeeded:
  -- never the result of an attempt that found the pool busy, nor the empty result.
  pub exec_with_retry_limited-Succeeded :
      (policy : RetryableExecPolicy) (m : Option ExecMetrics) (w : W)
      → (exec_with_retry_limited env policy m w).err ≡ none
      → Succeeded (exec_with_retry_limited env policy m w).result
  unfolding exec_with_retry_limited
  exec_with_retry_limited-Succeeded policy m w h = elim (Option-cases env.limiter_acquire) [
    | inl q ↦
        let o : exec_with_retry_limited env policy m w ≡ run_limited env (λ v. v) policy m w =
          rw (exec_with_retry_limited, q) refl in
        rw o (run_limited-Succeeded (λ v. v) policy m w (sym (ap (λ x. x.err) o) ∙ h))
    | inr (acquire, q) ↦ elim (Option-cases (acquire w).1) [
      | inl p ↦
          let o : exec_with_retry_limited env policy m w
              ≡ run_limited env env.limiter_release policy m (acquire w).0 =
            rw (exec_with_retry_limited, q, p) refl in
          rw o (
            run_limited-Succeeded env.limiter_release policy m (acquire w).0
              (sym (ap (λ x. x.err) o) ∙ h))
      | inr (e, p) ↦
          let o : (exec_with_retry_limited env policy m w).err ≡ some e =
            rw (exec_with_retry_limited, q, p) refl in
          absurd (ground (arith, h, o))
    ]
  ]

module _ {W C : Type 0} (acquire : W → W × Result C) (sleep : ℤ → W → W × Option Error) where
  try_reconnect-acquired :
      (policy : List ℤ) (w : W) (c : C)
      → (try_reconnect acquire sleep policy w).1 ≡ ok c
      → (v : W) × ((acquire v).1 ≡ ok c)
  unfolding try_reconnect
  try_reconnect-acquired [] w c h = absurd (ground (arith, h))
  try_reconnect-acquired (d ∷ []) w c h = elim (Result-cases (acquire w).1) [
    | inl (k, q) ↦
        let o : (try_reconnect acquire sleep (d ∷ []) w).1 ≡ ok k = rw (try_reconnect, q) refl in
        (w, q ∙ sym o ∙ h)
    | inr (e, q) ↦
        let o : (try_reconnect acquire sleep (d ∷ []) w).1
            ≡ err (join (sentinel reconnect_exhausted) e) =
          rw (try_reconnect, q) refl in
        absurd (ground (arith, h, o))
  ]
  try_reconnect-acquired (d ∷ d2 ∷ ds) w c h = elim (Result-cases (acquire w).1) [
    | inl (k, q) ↦
        let o : (try_reconnect acquire sleep (d ∷ d2 ∷ ds) w).1 ≡ ok k =
          rw (try_reconnect, q) refl in
        (w, q ∙ sym o ∙ h)
    | inr (e, q) ↦ elim (Option-cases (sleep d (acquire w).0).1) [
      | inl p ↦
          let o : try_reconnect acquire sleep (d ∷ d2 ∷ ds) w
              ≡ try_reconnect acquire sleep (d2 ∷ ds) (sleep d (acquire w).0).0 =
            rw (try_reconnect, q, p) refl in
          try_reconnect-acquired (d2 ∷ ds) (sleep d (acquire w).0).0 c (sym (ap (λ x. x.1) o) ∙ h)
      | inr (s, p) ↦
          let o : (try_reconnect acquire sleep (d ∷ d2 ∷ ds) w).1 ≡ err s =
            rw (try_reconnect, q, p) refl in
          absurd (ground (arith, h, o))
    ]
  ]

  -- Reconnect gives a client only when an Acquire gave it.
  pub reconnect-acquired :
      (policy : List ℤ) (w : W) (c : C)
      → (reconnect acquire sleep policy w).1 ≡ ok c
      → (v : W) × ((acquire v).1 ≡ ok c)
  unfolding reconnect
  reconnect-acquired policy w c h = try_reconnect-acquired (normalize_retry_policy policy) w c h
