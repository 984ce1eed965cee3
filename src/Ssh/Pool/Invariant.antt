-- ===== src/Ssh/Pool/Invariant.antt =====
-- The invariant of the pool, and what the changes of one host make of it.
use webox.Prelude.{
  ◌≡◌, ◌≢◌, refl, inl, inr, Bool-cases, ℕ, suc, ◌-◌, ◌<◌, true, false, List, [], arith,
}
use webox.Prelude.Int.{ℤ}
use webox.Prelude.Text.{Text, text_eq, text_eq_iff}
use webox.Ssh.Options.{PoolOptions}
use webox.Ssh.Host.{Client, HostPool, new_host, member, reap_host, split_expired}
use webox.Ssh.Pool.{Pool, get_host, put_host}
use webox.Ssh.Pool.Hosts.{Sound}
use webox.Ssh.Pool.Maps.{get_host-put_host}
use webox.Ssh.Pool.Steps.{State, at}

-- Every host of an open pool is sound.
abbrev pub Open : PoolOptions → State → Type 0
Open opts s = (key : Text) → Sound opts.max_per_host (s.dials key) (get_host key s.pool)

-- A closed pool holds no client.
abbrev pub Empty : Pool → Type 0
Empty p = (key : Text) → ((get_host key p).idle ≡ []) × ((get_host key p).active ≡ [])

pub record Invariant (opts : PoolOptions) (s : State) : Type 0 where
  pub while_open : s.pool.closed ≡ false → Open opts s
  pub when_closed : s.pool.closed ≡ true → Empty s.pool

-- One host changes, and its dials with it.
pub put-Open :
    (opts : PoolOptions) (s : State) (key : Text) (host : HostPool) (n : ℕ)
    → Sound opts.max_per_host n host
    → Open opts s
    → Open opts (record { pool = put_host key host s.pool; dials = at key n s.dials })
put-Open opts s key host n h o j = elim (Bool-cases (text_eq key j)) [
  | inl q ↦ rw (get_host-put_host key j host s.pool, q) h
  | inr q ↦ rw (get_host-put_host key j host s.pool, q) (o j)
]

pub put-Empty :
    (p : Pool) (key : Text) (host : HostPool)
    → (host.idle ≡ []) × (host.active ≡ [])
    → Empty p
    → Empty (put_host key host p)
put-Empty p key host h e j = elim (Bool-cases (text_eq key j)) [
  | inl q ↦ rw (get_host-put_host key j host p, q) h
  | inr q ↦ rw (get_host-put_host key j host p, q) (e j)
]

pub keep-Open :
    (opts : PoolOptions) (s : State) (key : Text) (host : HostPool)
    → Sound opts.max_per_host (s.dials key) host
    → Open opts s
    → Open opts (record s { pool = put_host key host s.pool })
keep-Open opts s key host h o j = elim (Bool-cases (text_eq key j)) [
  | inl q ↦
      let same : key ≡ j = (text_eq_iff key j).0 q in
      rw (get_host-put_host key j host s.pool, q, ← same) h
  | inr q ↦ rw (get_host-put_host key j host s.pool, q) (o j)
]

-- An open host with a dial under way, with the dial set apart.
pub pending-Sound :
    (limit : ℤ) (n : ℕ) (host : HostPool)
    → 0 < n
    → Sound limit n host
    → Sound limit (suc (n - 1)) host
pending-Sound limit n host h s = let whole : suc (n - 1) ≡ n = omega (arith, h) in rw whole s

pub no_dials : (limit : ℤ) (n : ℕ) → Sound limit n new_host → n ≡ 0
unfolding new_host
no_dials limit n s = ground (arith, s.total)

pub held_none : (c : Client) (ds : List Client) → ds ≡ [] → member c ds ≢ true
held_none c ds e = λ m. absurd (ground (arith, e, m))

pub reap_host-empty :
    (opts : PoolOptions) (now : ℤ) (host : HostPool)
    → (host.idle ≡ []) × (host.active ≡ [])
    → ((reap_host opts now host).0.idle ≡ []) × ((reap_host opts now host).0.active ≡ [])
unfolding reap_host split_expired
reap_host-empty opts now host h = rw (h.0, h.1) (refl, refl)
