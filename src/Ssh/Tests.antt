-- ===== src/Ssh/Tests.antt =====
-- The pool, the retries and the keys on concrete data.
use webox.Errors.{is}
use webox.Prelude.Text.{insert}
use webox.Prelude.Text.{lookup}
use webox.Prelude.Text.{text_eq}
use webox.Ssh.Pool.{dial_reserved}
use webox.Ssh.Pool.{reserve_or_wait}
use webox.Ssh.Pool.Counts.{count}
use webox.Prelude.{
  ◌⊎◌, List, ◌≡◌, refl, ℕ, zero, suc, ◌+◌, ◌≤◌, true, false, [], ◌∷◌, ◌++◌, Option, none, some,
  length, arith,
}
use webox.Prelude.Int.{pos, negsuc, ◌≤ℤ◌}
use webox.Prelude.Text.{codes}
use webox.Errors.{Error, sentinel, plain, pool_busy, Result, ok, err}
use webox.Ssh.Exec.{Channel, cancelled, exec}
use webox.Ssh.Exec.Ends.{Event, closed_session, gave_back, exec-Tidied}
use webox.Ssh.Options.{PoolOptions}
use webox.Ssh.Pool.{new_pool, get_host}
use webox.Ssh.Pool.Hosts.{held}
use webox.Ssh.Pool.Steps.{State, begin_acquire, end_dial, acquire, dialled, Reachable, start, next}
use webox.Ssh.Pool.Bounds.{pool_bounds}
use webox.Ssh.Target.{Target, key, key-collides}
use webox.Ssh.Retry.{RetryableExecPolicy, Env, exec_with_retry_limited, ExecMetrics, reconnect}

abbrev two_per_host : PoolOptions
two_per_host = record {
  max_per_host = pos 2;
  idle_timeout = pos 60;
  acquire_timeout = pos 5;
  cleanup_interval = pos 30;
  keepalive_interval = pos 15;
}

abbrev fresh_state : State
fresh_state = record { pool = new_pool; dials = λ k. 0 }

abbrev asked_state : State
asked_state = begin_acquire two_per_host (pos 1) (codes "a@b:22") fresh_state

-- One client dialled and handed out.
abbrev dialled_state : State
dialled_state = end_dial (codes "a@b:22") (ok 5) asked_state

dialled_state-Reachable : Reachable two_per_host dialled_state
unfolding begin_acquire text_eq reserve_or_wait new_pool lookup count insert
dialled_state-Reachable =
    next (next start (acquire (pos 1) (codes "a@b:22") fresh_state))
      (dialled (codes "a@b:22") (ok 5) asked_state (omega arith) refl)

dialled_count : length (get_host (codes "a@b:22") dialled_state.pool).active ≡ 1
unfolding get_host lookup end_dial dial_reserved begin_acquire reserve_or_wait new_pool insert
    text_eq
dialled_count = refl

pool_bounds_example :
    (dialled_state.pool.closed ≡ false
      → ((get_host (codes "a@b:22") dialled_state.pool).total
          ≡ pos (
              length (get_host (codes "a@b:22") dialled_state.pool).idle
              + length (get_host (codes "a@b:22") dialled_state.pool).active
              + dialled_state.dials (codes "a@b:22")))
        × ((get_host (codes "a@b:22") dialled_state.pool).total ≤ℤ pos 2)
        × ((c : ℕ) → held c (get_host (codes "a@b:22") dialled_state.pool) ≤ 1))
    × (dialled_state.pool.closed ≡ true
        → ((get_host (codes "a@b:22") dialled_state.pool).idle ≡ [])
          × ((get_host (codes "a@b:22") dialled_state.pool).active ≡ []))
pool_bounds_example =
    pool_bounds two_per_host dialled_state (omega arith) dialled_state-Reachable (codes "a@b:22")

abbrev bare_options : PoolOptions
bare_options = record {
  max_per_host = pos 0;
  idle_timeout = pos 1;
  acquire_timeout = negsuc 3;
  cleanup_interval = pos 0;
  keepalive_interval = pos 0;
}

abbrev target : Target
target = record { host = codes "fe80::1"; port = pos 22; user = codes "root"; alias = codes "x" }

abbrev same_target : Target
same_target = record target { alias = codes "y" }

key-collides_example :
    (s : Target) × (t : Target) × (key s ≡ key t)
    × (s.user ≡ codes "a")
    × (t.user ≡ codes "a" ++ b'@' ∷ codes "a")
key-collides_example = key-collides (codes "a") (pos 22) (codes "x")

abbrev policy : RetryableExecPolicy
policy = record { attempts = pos 3; base_backoff = pos 200; max_backoff = pos 1200 }

-- The world counts the runs; the first one finds the pool busy.
busy_once : ℕ → Option Error
busy_once zero = some (sentinel pool_busy)
busy_once (suc n) = none

abbrev exec_env : Env ℕ ℕ
exec_env = record {
  ctx_err = λ w. (w, none);
  limiter_acquire = none;
  limiter_release = λ w. w;
  exec = λ w. (suc w, w, busy_once w);
  jitter = λ d w. (w, d);
  sleep = λ d w. (w, none);
  no_result = 0;
}

abbrev no_metrics : ExecMetrics
no_metrics = record { acquires = 0; pool_busy_hits = 0; retries = 0; terminal_errors = 0 }

exec_passes : (exec_with_retry_limited exec_env policy (some no_metrics) 0).err ≡ none
unfolding busy_once exec_with_retry_limited is
exec_passes = refl

exec_counts :
    (exec_with_retry_limited exec_env policy (some no_metrics) 0).metrics
    ≡ some (record { acquires = 1; pool_busy_hits = 1; retries = 1; terminal_errors = 0 })
unfolding busy_once exec_with_retry_limited is
exec_counts = refl

-- An Acquire that gives the client 5 the second time.
second_time : ℕ → ℕ × Result ℕ
second_time zero = (1, err (sentinel pool_busy))
second_time (suc n) = (suc n, ok 5)

second_time_ran : (reconnect second_time (λ d w. (w, none)) [] 0).1 ≡ ok 5
unfolding second_time reconnect
second_time_ran = refl

-- The world is the log; the context ends during the run.
abbrev logging : Channel ℕ (List (Event ℕ))
logging = record {
  acquire = λ w. (w, ok 7);
  release = λ c w. w ++ gave_back c ∷ [];
  new_session = λ c w. (w, none);
  run = λ cmd w. (w, [], [], cancelled plain);
  close_session = λ w. w ++ closed_session ∷ [];
}

abbrev ended : List (Event ℕ)
ended = (exec logging (codes "ls") []).0

exec-Tidied_example :
    ((e : Error) × ((logging.acquire []).1 ≡ err e) × (ended ≡ []))
    ⊎ ((c : ℕ) × ((logging.acquire []).1 ≡ ok c)
        × (((e : Error) × ((logging.new_session c []).1 ≡ some e) × (ended ≡ gave_back c ∷ []))
            ⊎ (((logging.new_session c []).1 ≡ none)
                × ((ended ≡ closed_session ∷ gave_back c ∷ [])
                    ⊎ (ended ≡ closed_session ∷ closed_session ∷ gave_back c ∷ [])))))
exec-Tidied_example =
    exec-Tidied logging (λ w. w) (λ w. refl) (λ c w. refl) (λ c w. refl) (λ cmd w. refl) (λ w. refl)
      (codes "ls") []

closed_twice : ended ≡ closed_session ∷ closed_session ∷ gave_back 7 ∷ []
unfolding exec
closed_twice = refl
