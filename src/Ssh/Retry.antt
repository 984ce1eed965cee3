-- ===== src/Ssh/Retry.antt =====
-- ssh/retry.go and ssh/exec.go: a command that is tried again while the pool is busy, under the
-- limiter, and Reconnect. `W` is the world outside, `R` the results of a command. The sleep, the
-- command's run, the limiter's semaphore and the pool's Acquire are the caller's, as functions of
-- the world.
pub mod Loops
use webox.Prelude.{
  ℕ, zero, suc, ◌+◌, ◌-◌, ◌*◌, ◌^◌, ◌%◌, Bool, true, false, List, [], ◌∷◌, Option, none, some,
  if◌then◌else◌, ◌==◌, ltb, ◌||◌,
}
use mathlib.Core.Option
use webox.Prelude.Int.{ℤ, pos, negsuc, sub_ℕ, leb_ℤ, ltb_ℤ, pos_part}
use webox.Errors.{Error, sentinel, wrap, join, is, pool_busy, reconnect_exhausted, Result, ok, err}
use webox.Ssh.Options.{second}

pub record RetryableExecPolicy : Type 0 where
  pub attempts : ℤ
  pub base_backoff : ℤ
  pub max_backoff : ℤ

unfoldable pub default_retryable_exec_policy : RetryableExecPolicy
default_retryable_exec_policy = record {
  attempts = pos 3;
  base_backoff = pos 200000000;
  max_backoff = pos 1200000000;
}

unfoldable pub normalize_retryable_exec_policy : RetryableExecPolicy → RetryableExecPolicy
unfolding default_retryable_exec_policy
normalize_retryable_exec_policy p = record {
  attempts =
      if leb_ℤ p.attempts (pos 0) then default_retryable_exec_policy.attempts else p.attempts;
  base_backoff =
      if leb_ℤ p.base_backoff (pos 0)
      then default_retryable_exec_policy.base_backoff
      else p.base_backoff;
  max_backoff =
      if leb_ℤ p.max_backoff (pos 0)
      then default_retryable_exec_policy.max_backoff
      else p.max_backoff;
}

-- The counters are uint64.
pub record ExecMetrics : Type 0 where
  pub acquires : ℕ
  pub pool_busy_hits : ℕ
  pub retries : ℕ
  pub terminal_errors : ℕ

abbrev add_one : ℕ → ℕ
add_one n = (n + 1) % 2 ^ 64

abbrev pub count_acquire : ExecMetrics → ExecMetrics
count_acquire m = record m { acquires = add_one m.acquires }

abbrev pub count_busy : ExecMetrics → ExecMetrics
count_busy m = record m { pool_busy_hits = add_one m.pool_busy_hits }

abbrev pub count_retry : ExecMetrics → ExecMetrics
count_retry m = record m { retries = add_one m.retries }

abbrev pub count_terminal : ExecMetrics → ExecMetrics
count_terminal m = record m { terminal_errors = add_one m.terminal_errors }

-- An int64 from its 64 bits; a duration shifted left.
abbrev signed : ℕ → ℤ
signed m = if ltb m (2 ^ 63) then pos m else sub_ℕ m (2 ^ 64)

unfoldable pub shift_left : ℤ → ℕ → ℤ
shift_left (pos b) k = signed (b * 2 ^ k % 2 ^ 64)
shift_left (negsuc b) k = signed ((2 ^ 64 - suc b * 2 ^ k % 2 ^ 64) % 2 ^ 64)

-- The delay that jitteredBackoff computes before its jitter.
unfoldable pub unjittered_backoff : RetryableExecPolicy → ℕ → ℤ
unfolding shift_left
unjittered_backoff policy attempt =
    let exp = shift_left policy.base_backoff attempt in
    if leb_ℤ exp (pos 0) || ltb_ℤ policy.max_backoff exp then policy.max_backoff else exp

-- `jitter` is the float64 arithmetic of jitteredBackoff on one number of `rand`.
pub record Env (W R : Type 0) : Type 0 where
  pub ctx_err : W → W × Option Error
  pub limiter_acquire : Option (W → W × Option Error)
  pub limiter_release : W → W
  pub exec : W → W × R × Option Error
  pub jitter : ℤ → W → W × ℤ
  pub sleep : ℤ → W → W × Option Error
  pub no_result : R

-- What ExecWithRetryLimited returns, with the counters after it.
pub record Outcome (W R : Type 0) : Type 0 where
  pub world : W
  pub result : R
  pub err : Option Error
  pub metrics : Option ExecMetrics

module _ {W R : Type 0} (env : Env W R) where
  -- A busy pool: the last attempt gives its error, an earlier one sleeps and goes on.
  unfoldable pub after_busy :
      RetryableExecPolicy
      → ℕ
      → Bool
      → R
      → Error
      → Option ExecMetrics
      → W
      → (Option ExecMetrics → W → Outcome W R)
      → Outcome W R
  unfolding unjittered_backoff
  after_busy policy attempt last result e m w go_on =
      if last
      then record { world = w; result = result; err = some (wrap e); metrics = m }
      else let (w', backoff) = env.jitter (unjittered_backoff policy attempt) w in
        let counted = Option.map count_retry m in
        let (w'', failed) = env.sleep backoff w' in
        elim failed [
          | some s ↦ record { world = w''; result = result; err = some s; metrics = counted }
          | none ↦ go_on counted w''
        ]

  -- The loop with `left` attempts to go, after `attempt`.
  unfoldable pub try_exec :
      RetryableExecPolicy → ℕ → ℕ → R → Option Error → Option ExecMetrics → W → Outcome W R
  unfolding after_busy
  try_exec policy zero attempt last_result last_err m w = record {
    world = w;
    result = last_result;
    err = last_err;
    metrics = m;
  }
  try_exec policy (suc left) attempt last_result last_err m w =
      let (w', cancelled) = env.ctx_err w in
      elim cancelled [
        | some e ↦ record { world = w'; result = last_result; err = some e; metrics = m }
        | none ↦
            let (w'', result, failed) = env.exec w' in
            elim failed [
              | none ↦ record {
                world = w'';
                result = result;
                err = none;
                metrics = Option.map count_acquire m;
              }
              | some e ↦
                  if is e pool_busy
                  then after_busy policy attempt (left == 0) result e (Option.map count_busy m) w''
                      (try_exec policy left (suc attempt) result (some e))
                  else record {
                    world = w'';
                    result = result;
                    err = some e;
                    metrics = Option.map count_terminal m;
                  }
            ]
      ]

  unfoldable pub run_limited : (W → W) → RetryableExecPolicy → Option ExecMetrics → W → Outcome W R
  unfolding try_exec normalize_retryable_exec_policy
  run_limited release policy m w =
      let p = normalize_retryable_exec_policy policy in
      let o = try_exec p (pos_part p.attempts) 0 env.no_result none m w in
      record o { world = release o.world }

  unfoldable pub exec_with_retry_limited :
      RetryableExecPolicy → Option ExecMetrics → W → Outcome W R
  unfolding run_limited
  exec_with_retry_limited policy m w = elim env.limiter_acquire [
    | none ↦ run_limited (λ v. v) policy m w
    | some acquire ↦
        let (w', failed) = acquire w in
        elim failed [
          | some e ↦ record { world = w'; result = env.no_result; err = some e; metrics = m }
          | none ↦ run_limited env.limiter_release policy m w'
        ]
  ]

-- The delays of Reconnect.
unfoldable pub normalize_retry_policy : List ℤ → List ℤ
normalize_retry_policy [] = pos (3 * second) ∷ pos (6 * second) ∷ pos (12 * second) ∷ []
normalize_retry_policy (d ∷ ds) = d ∷ ds

module _ {W C : Type 0} (acquire : W → W × Result C) (sleep : ℤ → W → W × Option Error) where
  -- The loop; there is a first delay, so that it ends behind an error.
  unfoldable pub try_reconnect : List ℤ → W → W × Result C
  try_reconnect [] w = (w, err (sentinel reconnect_exhausted))
  try_reconnect (backoff ∷ rest) w =
      let (w', got) = acquire w in
      elim got [
        | ok client ↦ (w', ok client)
        | err e ↦ elim rest [
          | [] ↦ (w', err (join (sentinel reconnect_exhausted) e))
          | d ∷ ds ↦
              let (w'', failed) = sleep backoff w' in
              elim failed [ some s ↦ (w'', err s) | none ↦ try_reconnect rest w'' ]
        ]
      ]

  unfoldable pub reconnect : List ℤ → W → W × Result C
  unfolding try_reconnect normalize_retry_policy
  reconnect policy w = try_reconnect (normalize_retry_policy policy) w
