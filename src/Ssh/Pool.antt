-- ===== src/Ssh/Pool.antt =====
-- ssh/pool.go: the pool of SSH clients, whose hosts are in Host. A key is Target.Key's text. Each
-- function that holds the mutex from end to end is one function on the pool; Acquire is cut where
-- it lets go of the mutex. The clients that a function closes on the wire, after it let go of the
-- mutex, are among its results.
pub mod Counts
pub mod Hosts
pub mod Maps
pub mod Steps
pub mod Invariant
pub mod Kept
pub mod Bounds
use webox.Prelude.{
  ℕ, Bool, true, false, List, [], ◌∷◌, ◌++◌, Option, none, some, if◌then◌else◌, length, suc,
}
use webox.Prelude.Int.{ℤ, pos, ◌-ℤ◌, ltb_ℤ}
use webox.Prelude.Text.{Text, lookup, insert}
use webox.Errors.{Error, sentinel, pool_closed, Result, ok, err}
use webox.Ssh.Options.{PoolOptions}
use webox.Ssh.Host.{
  Client, HostPool, new_host, member, add, clients_of, reap_host, Reserved, refused, reserve_host,
  release_host, close_host,
}

pub record Pool : Type 0 where
  pub hosts : List (Text × HostPool)
  pub closed : Bool

-- NewPool
unfoldable pub new_pool : Pool
new_pool = record { hosts = []; closed = false }

-- getHostLocked; the callers put the host back that they change.
unfoldable pub get_host : Text → Pool → HostPool
unfolding new_host
get_host key p = elim (lookup key p.hosts) [ none ↦ new_host | some host ↦ host ]

abbrev pub put_host : Text → HostPool → Pool → Pool
put_host key host p = record p { hosts = insert key host p.hosts }

unfoldable pub reserve_or_wait : PoolOptions → ℤ → Text → Pool → Pool × Reserved × List Client
unfolding reap_host reserve_host get_host
reserve_or_wait opts now key p =
    if p.closed
    then (p, refused (sentinel pool_closed), [])
    else let (reaped, expired) = reap_host opts now (get_host key p) in
      let (host, answer) = reserve_host opts reaped in (put_host key host p, answer, expired)

-- releaseReservation
unfoldable pub release_reservation : Text → Pool → Pool
release_reservation key p = elim (lookup key p.hosts) [
  | none ↦ p
  | some host ↦
      if ltb_ℤ (pos 0) host.total
      then put_host key (record host { total = host.total -ℤ pos 1; notify = suc host.notify }) p
      else p
]

-- dialReserved. `dialled` is what the config function and the dialer answered, outside the mutex;
-- `p` is the pool after that.
unfoldable pub dial_reserved : Text → Result Client → Pool → Pool × Result Client × List Client
unfolding release_reservation get_host add
dial_reserved key (err e) p = (release_reservation key p, err e, [])
dial_reserved key (ok client) p =
    let host = get_host key p in
    if p.closed
    then (
      put_host key (record host { total = host.total -ℤ pos 1 }) p,
      err (sentinel pool_closed),
      client ∷ [],
    )
    else (put_host key (record host { active = add client host.active }) p, ok client, [])

unfoldable pub release : ℤ → Text → Option Client → Pool → Pool × List Client
unfolding release_host
release now key none p = (p, [])
release now key (some client) p = elim (lookup key p.hosts) [
  | none ↦ (p, client ∷ [])
  | some host ↦
      if member client host.active
      then (
        put_host key (release_host p.closed now client host) p,
        if p.closed then client ∷ [] else [],
      )
      else (p, [])
]

unfoldable pub close_hosts : List (Text × HostPool) → List (Text × HostPool) × List Client
unfolding close_host
close_hosts [] = ([], [])
close_hosts ((key, host) ∷ hs) =
    let (rest, clients) = close_hosts hs in
    ((key, close_host host) ∷ rest, clients_of host.idle ++ host.active ++ clients)

unfoldable pub close : Pool → Pool × List Client
unfolding close_hosts
close p =
    let (hosts, clients) = close_hosts p.hosts in
    if p.closed then (p, []) else (record { hosts = hosts; closed = true }, clients)

unfoldable pub reap_hosts :
    PoolOptions → ℤ → List (Text × HostPool) → List (Text × HostPool) × List Client
unfolding reap_host
reap_hosts opts now [] = ([], [])
reap_hosts opts now ((key, host) ∷ hs) =
    let (rest, clients) = reap_hosts opts now hs in
    let (reaped, expired) = reap_host opts now host in ((key, reaped) ∷ rest, expired ++ clients)

unfoldable pub reap_idle : PoolOptions → ℤ → Pool → Pool × List Client
unfolding reap_hosts
reap_idle opts now p =
    let (hosts, expired) = reap_hosts opts now p.hosts in (record p { hosts = hosts }, expired)

-- IdleCount
unfoldable pub idle_count : Text → Pool → ℕ
idle_count key p = elim (lookup key p.hosts) [ none ↦ 0 | some host ↦ length host.idle ]
