-- ===== src/Ssh/Host.antt =====
-- ssh/pool.go: the clients of one host. A client is known by the number of its address. The
-- functions are the parts of the pool's that work on a host while they hold the mutex.
use webox.Prelude.{
  ℕ, suc, Bool, false, List, [], ◌∷◌, ◌++◌, Option, none, some, if◌then◌else◌, ◌==◌, ◌||◌,
}
use webox.Prelude.Int.{ℤ, pos, ◌+ℤ◌, ◌-ℤ◌, ltb_ℤ}
use webox.Errors.{Error}
use webox.Ssh.Options.{PoolOptions}

abbrev pub Client : Type 0
Client = ℕ

pub record PooledClient : Type 0 where
  pub client : Client
  pub last_used : ℤ

-- `notify` counts the channels closed so far: a waiter that was given the channel `n` is awake
-- when the host's number is past `n`.
pub record HostPool : Type 0 where
  pub idle : List PooledClient
  pub active : List Client
  pub total : ℤ
  pub notify : ℕ

unfoldable pub new_host : HostPool
new_host = record { idle = []; active = []; total = pos 0; notify = 0 }

-- A set of clients.
abbrev pub member : Client → List Client → Bool
member c [] = false
member c (d ∷ ds) = d == c || member c ds

unfoldable pub add : Client → List Client → List Client
add c ds = if member c ds then ds else ds ++ c ∷ []

unfoldable pub delete : Client → List Client → List Client
delete c [] = []
delete c (d ∷ ds) = if d == c then delete c ds else d ∷ delete c ds

abbrev pub clients_of : List PooledClient → List Client
clients_of [] = []
clients_of (i ∷ is) = i.client ∷ clients_of is

-- The loop of reapHostLocked: those kept, and those expired.
unfoldable pub split_expired : ℤ → ℤ → List PooledClient → List PooledClient × List Client
split_expired timeout now [] = ([], [])
split_expired timeout now (i ∷ is) =
    let (kept, expired) = split_expired timeout now is in
    if ltb_ℤ timeout (now -ℤ i.last_used) then (kept, i.client ∷ expired) else (i ∷ kept, expired)

-- total-- for each of the clients.
unfoldable pub count_down : ℤ → List Client → ℤ
count_down total [] = total
count_down total (c ∷ cs) = count_down total cs -ℤ pos 1

unfoldable pub reap_host : PoolOptions → ℤ → HostPool → HostPool × List Client
unfolding split_expired count_down
reap_host opts now host =
    let (kept, expired) = split_expired opts.idle_timeout now host.idle in
    let reaped = record host { idle = kept; total = count_down host.total expired } in
    elim expired [
      | [] ↦ (reaped, [])
      | c ∷ cs ↦ (record reaped { notify = suc host.notify }, c ∷ cs)
    ]

-- What reserveOrWait answers.
pub data Reserved : Type 0 where
  refused : Error → Reserved
  reuse : Client → Reserved
  dial : Reserved
  wait : ℕ → Reserved

-- The last of the idle clients, with those before it.
unfoldable pub last_idle : List PooledClient → Option (List PooledClient × PooledClient)
last_idle [] = none
last_idle (i ∷ is) = elim (last_idle is) [
  | none ↦ some ([], i)
  | some (before, l) ↦ some (i ∷ before, l)
]

-- reserveOrWait after the reaping.
unfoldable pub reserve_host : PoolOptions → HostPool → HostPool × Reserved
unfolding last_idle add
reserve_host opts host = elim (last_idle host.idle) [
  | some (before, i) ↦
      (record host { idle = before; active = add i.client host.active }, reuse i.client)
  | none ↦
      if ltb_ℤ host.total opts.max_per_host
      then (record host { total = host.total +ℤ pos 1 }, dial)
      else (host, wait host.notify)
]

-- Release of a client that is not nil.
unfoldable pub release_host : Bool → ℤ → Client → HostPool → HostPool
unfolding delete
release_host closed now client host = record {
  idle =
      if closed then host.idle else host.idle ++ (record { client = client; last_used = now }) ∷ [];
  active = delete client host.active;
  total = if closed then host.total -ℤ pos 1 else host.total;
  notify = suc host.notify;
}

unfoldable pub close_host : HostPool → HostPool
close_host host = record { idle = []; active = []; total = pos 0; notify = suc host.notify }
