-- ===== src/Ssh/Options.antt =====
-- ssh/pool.go and ssh/inflight.go: the pool's options and their defaults, and the limiter's budget.
-- Durations are nanoseconds. The dialer, the clock and the config function are not among the
-- options here: the pool's operations take what they answer.
use webox.Prelude.{
  zero, suc, ap, ◌≢◌, true, false, ℕ, ◌≤◌, ◌*◌, ◌/◌, ◌<◌, Bool, if◌then◌else◌, ltb, arith,
}
use webox.Prelude.Int.{ℤ, pos, negsuc, quot, leb_ℤ, ◌<ℤ◌, pos_part, neg_part}

abbrev pub second : ℕ
second = 1000000000

abbrev pub default_max_per_host : ℤ
default_max_per_host = pos 3

abbrev pub default_idle_timeout : ℤ
default_idle_timeout = pos (60 * second)

abbrev pub default_acquire_timeout : ℤ
default_acquire_timeout = pos (5 * second)

abbrev pub default_keepalive : ℤ
default_keepalive = pos (15 * second)

abbrev pub cleanup_divisor : ℕ
cleanup_divisor = 2

pub record PoolOptions : Type 0 where
  pub max_per_host : ℤ
  pub idle_timeout : ℤ
  pub acquire_timeout : ℤ
  pub cleanup_interval : ℤ
  pub keepalive_interval : ℤ

is_zero : ℤ → Bool
is_zero (pos zero) = true
is_zero (pos (suc n)) = false
is_zero (negsuc n) = false

-- The value of an option, or the default for one that is not positive.
unfoldable pub positive_or : ℤ → ℤ → ℤ
positive_or d n = if leb_ℤ n (pos 0) then d else n

unfoldable pub normalize_pool_options : PoolOptions → PoolOptions
unfolding positive_or is_zero
normalize_pool_options opts = record {
  max_per_host = positive_or default_max_per_host opts.max_per_host;
  idle_timeout = idle;
  acquire_timeout = positive_or default_acquire_timeout opts.acquire_timeout;
  cleanup_interval =
      if leb_ℤ opts.cleanup_interval (pos 0)
      then positive_or (pos second) (quot idle cleanup_divisor)
      else opts.cleanup_interval;
  keepalive_interval =
      if is_zero opts.keepalive_interval then default_keepalive else opts.keepalive_interval;
}
  where
    idle : ℤ
    idle = positive_or default_idle_timeout opts.idle_timeout

abbrev pub inflight_floor_budget : ℕ
inflight_floor_budget = 8

abbrev pub inflight_profile_divisor : ℕ
inflight_profile_divisor = 2

-- NewInflightLimiter: the budget, which is the capacity of its semaphore.
unfoldable pub new_inflight_limiter : ℤ → ℕ
new_inflight_limiter profiles =
    let budget = pos_part profiles / inflight_profile_divisor in
    if ltb budget inflight_floor_budget then inflight_floor_budget else budget

-- The limiter has at least 8 slots; otherwise the fewest that are as many as half the profiles,
-- rounded down.
pub new_inflight_limiter_lem :
    (profiles : ℤ)
    → (8 ≤ new_inflight_limiter profiles)
      × (pos_part profiles / 2 ≤ new_inflight_limiter profiles)
      × (8 < new_inflight_limiter profiles → 2 * new_inflight_limiter profiles ≤ pos_part profiles)
unfolding new_inflight_limiter
new_inflight_limiter_lem profiles = ground arith

positive_or-positive : (d n : ℤ) → pos 0 <ℤ d → pos 0 <ℤ positive_or d n
unfolding positive_or
positive_or-positive d n h = ground arith

keepalive_or-nonzero : (n : ℤ) → (if is_zero n then default_keepalive else n) ≢ pos 0
unfolding is_zero
keepalive_or-nonzero (pos zero) = λ e. ground (arith, ap pos_part e)
keepalive_or-nonzero (pos (suc n)) = λ e. ground (arith, ap pos_part e)
keepalive_or-nonzero (negsuc n) = λ e. ground (arith, ap neg_part e)

-- Whatever options are given, the pool works with a positive limit per host and positive timeouts
-- and intervals of cleaning; only the keepalive's interval may be negative, never zero.
pub normalize_pool_options-positive :
    (opts : PoolOptions)
    → (pos 0 <ℤ (normalize_pool_options opts).max_per_host)
      × (pos 0 <ℤ (normalize_pool_options opts).idle_timeout)
      × (pos 0 <ℤ (normalize_pool_options opts).acquire_timeout)
      × (pos 0 <ℤ (normalize_pool_options opts).cleanup_interval)
      × ((normalize_pool_options opts).keepalive_interval ≢ pos 0)
unfolding normalize_pool_options positive_or quot is_zero
normalize_pool_options-positive opts = (
  positive_or-positive default_max_per_host opts.max_per_host (ground arith),
  positive_or-positive default_idle_timeout opts.idle_timeout (ground arith),
  positive_or-positive default_acquire_timeout opts.acquire_timeout (ground arith),
  ground (
    arith,
    positive_or-positive (pos second)
        (quot (normalize_pool_options opts).idle_timeout cleanup_divisor) (ground arith),
  ),
  keepalive_or-nonzero opts.keepalive_interval,
)
