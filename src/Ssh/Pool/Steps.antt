-- ===== src/Ssh/Pool/Steps.antt =====
-- The pool under callers that interleave: what each goroutine does while it holds the mutex is one
-- step. Between the two steps of an Acquire that dials, its dial is under way.
use webox.Prelude.{ℕ, ◌-◌, ◌<◌, ◌≡◌, Option, if◌then◌else◌}
use webox.Prelude.Int.{ℤ}
use webox.Prelude.Text.{Text, text_eq}
use webox.Errors.{Result, ok, err}
use webox.Ssh.Options.{PoolOptions}
use webox.Ssh.Host.{Client}
use webox.Ssh.Pool.{
  Pool, new_pool, get_host, reserve_or_wait, dial_reserved, release, reap_idle, close,
}
use webox.Ssh.Pool.Hosts.{held, dials_after}

pub record State : Type 0 where
  pub pool : Pool
  pub dials : Text → ℕ

abbrev pub at : Text → ℕ → (Text → ℕ) → Text → ℕ
at key n f j = if text_eq key j then n else f j

-- The client that a dial brought is none that the host holds already.
abbrev pub New : Text → Result Client → Pool → Type 0
New key (ok client) p = held client (get_host key p) ≡ 0
New key (err e) p = Unit

unfoldable pub begin_acquire : PoolOptions → ℤ → Text → State → State
begin_acquire opts now key s =
    let (p, answer, expired) = reserve_or_wait opts now key s.pool in
    record { pool = p; dials = at key (dials_after (s.dials key) answer) s.dials }

unfoldable pub end_dial : Text → Result Client → State → State
end_dial key dialled s = record {
  pool = (dial_reserved key dialled s.pool).0;
  dials = at key (s.dials key - 1) s.dials;
}

pub data Step (opts : PoolOptions) : State → State → Type 0 where
  acquire : (now : ℤ) (key : Text) (s : State) → Step opts s (begin_acquire opts now key s)
  dialled :
      (key : Text) (r : Result Client) (s : State)
      → 0 < s.dials key
      → New key r s.pool
      → Step opts s (end_dial key r s)
  released :
      (now : ℤ) (key : Text) (c : Option Client) (s : State)
      → Step opts s (record s { pool = (release now key c s.pool).0 })
  reaped : (now : ℤ) (s : State) → Step opts s (record s { pool = (reap_idle opts now s.pool).0 })
  closed : (s : State) → Step opts s (record s { pool = (close s.pool).0 })

-- The states that a new pool comes to.
pub data Reachable (opts : PoolOptions) : State → Type 0 where
  start : Reachable opts (record { pool = new_pool; dials = λ key. 0 })
  next : {s t : State} → Reachable opts s → Step opts s t → Reachable opts t
