-- ===== src/Ssh/Pool/Bounds.antt =====
-- ssh/pool.go: what holds of the clients of a pool, however its callers interleave.
use webox.Prelude.{◌≡◌, ◌+◌, ◌≤◌, true, false, [], length}
use webox.Prelude.Int.{pos, ◌≤ℤ◌}
use webox.Prelude.Text.{Text, lookup}
use webox.Ssh.Options.{PoolOptions}
use webox.Ssh.Host.{Client}
use webox.Ssh.Pool.{new_pool, get_host}
use webox.Ssh.Pool.Hosts.{held, new_host-Sound}
use webox.Ssh.Pool.Steps.{
  State, Step, acquire, dialled, released, reaped, closed, Reachable, start, next,
}
use webox.Ssh.Pool.Invariant.{Invariant}
use webox.Ssh.Pool.Kept.{
  acquire-Invariant, dialled-Invariant, released-Invariant, reaped-Invariant, closed-Invariant,
}

Invariant-kept :
    (opts : PoolOptions) (s t : State) → Step opts s t → Invariant opts s → Invariant opts t
Invariant-kept opts s t (acquire now key _) i = acquire-Invariant opts s i now key
Invariant-kept opts s t (dialled key r _ d new) i = dialled-Invariant opts s i key r d new
Invariant-kept opts s t (released now key c _) i = released-Invariant opts s i now key c
Invariant-kept opts s t (reaped now _) i = reaped-Invariant opts s i now
Invariant-kept opts s t (closed _) i = closed-Invariant opts s i

Invariant-reached :
    (opts : PoolOptions) (s : State)
    → pos 0 ≤ℤ opts.max_per_host
    → Reachable opts s
    → Invariant opts s
unfolding new_pool get_host lookup
Invariant-reached opts s h start = record {
  while_open = λ q key. new_host-Sound opts.max_per_host h;
  when_closed = λ q. absurd cc;
}
Invariant-reached opts s h (next {s = r} before step) =
    Invariant-kept opts r s step (Invariant-reached opts r h before)

-- Let the limit per host be no negative number and dials bring clients that the host does not hold.
-- However callers interleave, while the pool is open: the clients that a host holds, idle or handed
-- out, and the dials under way for it are `total`, which is within the limit, and no client is held
-- twice. Once the pool is closed no host holds a client.
pub pool_bounds :
    (opts : PoolOptions) (s : State)
    → pos 0 ≤ℤ opts.max_per_host
    → Reachable opts s
    → (key : Text)
    → (s.pool.closed ≡ false
        → ((get_host key s.pool).total
            ≡ pos (
                length (get_host key s.pool).idle
                + length (get_host key s.pool).active
                + s.dials key))
          × ((get_host key s.pool).total ≤ℤ opts.max_per_host)
          × ((c : Client) → held c (get_host key s.pool) ≤ 1))
      × (s.pool.closed ≡ true
          → ((get_host key s.pool).idle ≡ []) × ((get_host key s.pool).active ≡ []))
pool_bounds opts s h r key =
    let i = Invariant-reached opts s h r in
    (λ q. let o = i.while_open q key in (o.total, o.limited, o.once), λ q. i.when_closed q key)
