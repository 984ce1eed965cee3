-- ===== src/Ssh/Pool/Maps.antt =====
-- The hosts of the pool as a function of the key, and what each function of the pool makes of it.
use webox.Prelude.{
  ◌≡◌, refl, inl, inr, Bool-cases, false, List, [], ◌∷◌, Option, none, some, if◌then◌else◌, arith,
}
use webox.Prelude.Int.{ℤ}
use webox.Prelude.Text.{Text, lookup, lookup-insert, text_eq}
use webox.Ssh.Options.{PoolOptions}
use webox.Ssh.Host.{HostPool, new_host, reap_host, close_host, split_expired, count_down}
use webox.Ssh.Pool.{Pool, get_host, put_host, reap_hosts, reap_idle, close_hosts, close}

pub get_host-put_host :
    (key j : Text) (host : HostPool) (p : Pool)
    → get_host j (put_host key host p) ≡ (if text_eq key j then host else get_host j p)
unfolding get_host
get_host-put_host key j host p = ground (arith, lookup-insert key j host p.hosts)

pub get_host-found :
    (key : Text) (host : HostPool) (p : Pool)
    → lookup key p.hosts ≡ some host
    → get_host key p ≡ host
unfolding get_host
get_host-found key host p h = rw (get_host, h) refl

pub get_host-missing :
    (key : Text) (p : Pool) → lookup key p.hosts ≡ none → get_host key p ≡ new_host
unfolding get_host
get_host-missing key p h = rw (get_host, h) refl

-- The host of a key that has none is the new one, which has nothing to reap or to close.
abbrev or_new : Option HostPool → HostPool
or_new none = new_host
or_new (some host) = host

lookup-reap_hosts :
    (opts : PoolOptions) (now : ℤ) (key : Text) (hs : List (Text × HostPool))
    → or_new (lookup key (reap_hosts opts now hs).0)
      ≡ (reap_host opts now (or_new (lookup key hs))).0
unfolding lookup reap_hosts reap_host new_host split_expired count_down
lookup-reap_hosts opts now key [] = refl
lookup-reap_hosts opts now key ((j, host) ∷ hs) = elim (Bool-cases (text_eq j key)) [
  | inl q ↦ rw q refl
  | inr q ↦ rw q (lookup-reap_hosts opts now key hs)
]

pub get_host-reap_idle :
    (opts : PoolOptions) (now : ℤ) (key : Text) (p : Pool)
    → get_host key (reap_idle opts now p).0 ≡ (reap_host opts now (get_host key p)).0
unfolding get_host reap_idle
get_host-reap_idle opts now key p = lookup-reap_hosts opts now key p.hosts

lookup-close_hosts :
    (key : Text) (hs : List (Text × HostPool))
    → ((or_new (lookup key (close_hosts hs).0)).idle ≡ [])
      × ((or_new (lookup key (close_hosts hs).0)).active ≡ [])
unfolding lookup close_hosts close_host new_host
lookup-close_hosts key [] = (refl, refl)
lookup-close_hosts key ((j, host) ∷ hs) = elim (Bool-cases (text_eq j key)) [
  | inl q ↦ rw q (refl, refl)
  | inr q ↦ rw q (lookup-close_hosts key hs)
]

pub get_host-close :
    (key : Text) (p : Pool)
    → p.closed ≡ false
    → ((get_host key (close p).0).idle ≡ []) × ((get_host key (close p).0).active ≡ [])
unfolding get_host close
get_host-close key p open_ = rw open_ (lookup-close_hosts key p.hosts)
