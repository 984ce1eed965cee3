-- ===== src/Ssh/Pool/Kept.antt =====
-- Every step of the pool keeps its invariant.
use webox.Prelude.{
  ◌≡◌, refl, inl, inr, Option-cases, Bool-cases, suc, ◌-◌, ◌<◌, true, [], Option, none, some, arith,
}
use webox.Prelude.Int.{ℤ, pos, ltb_ℤ}
use webox.Prelude.Text.{Text, lookup}
use webox.Errors.{Result, ok, err}
use webox.Ssh.Options.{PoolOptions}
use webox.Ssh.Host.{Client, HostPool, member, reap_host}
use webox.Ssh.Pool.{
  get_host, reserve_or_wait, release_reservation, dial_reserved, release, reap_idle, close,
}
use webox.Ssh.Pool.Hosts.{
  held, reap_host-Sound, reserve_host-Sound, dialled-Sound, failed-Sound, release_host-Sound,
}
use webox.Ssh.Pool.Maps.{get_host-found, get_host-missing, get_host-reap_idle, get_host-close}
use webox.Ssh.Pool.Steps.{State, at, New, begin_acquire, end_dial}
use webox.Ssh.Pool.Invariant.{
  Invariant, put-Open, put-Empty, keep-Open, pending-Sound, no_dials, held_none, reap_host-empty,
}

module _ (opts : PoolOptions) (s : State) (i : Invariant opts s) where
  pub acquire-Invariant : (now : ℤ) (key : Text) → Invariant opts (begin_acquire opts now key s)
  unfolding begin_acquire reserve_or_wait
  acquire-Invariant now key = elim (Bool-cases s.pool.closed) [
    | inl q ↦
        rw (begin_acquire, reserve_or_wait, q)
          (record { while_open = λ h. absurd cc; when_closed = λ h. i.when_closed q })
    | inr q ↦
        rw (begin_acquire, reserve_or_wait, q)
          (record {
            while_open = λ h.
                put-Open opts s key _ _
                  (reserve_host-Sound opts.max_per_host (s.dials key) opts
                    (reap_host opts now (get_host key s.pool)).0 refl
                    (reap_host-Sound opts.max_per_host (s.dials key) opts now (get_host key s.pool)
                      (i.while_open q key)))
                  (i.while_open q);
            when_closed = λ h. absurd cc;
          })
  ]

  closed_failed :
      (key : Text) (host : HostPool)
      → lookup key s.pool.hosts ≡ some host
      → s.pool.closed ≡ true
      → Invariant opts (record {
        pool = release_reservation key s.pool;
        dials = at key (s.dials key - 1) s.dials;
      })
  unfolding release_reservation
  closed_failed key host q c =
      let same : get_host key s.pool ≡ host = get_host-found key host s.pool q in
      elim (Bool-cases (ltb_ℤ (pos 0) host.total)) [
        | inl b ↦
            rw (release_reservation, q, b)
              (record {
                while_open = λ h. absurd (ground (arith, h, c));
                when_closed = λ h.
                    put-Empty s.pool key _ (rw (← same) (i.when_closed c key)) (i.when_closed c);
              })
        | inr b ↦
            rw (release_reservation, q, b)
              (record {
                while_open = λ h. absurd (ground (arith, h, c));
                when_closed = λ h. i.when_closed c;
              })
      ]

  failed-Invariant :
      (key : Text)
      → 0 < s.dials key
      → Invariant opts (record {
        pool = release_reservation key s.pool;
        dials = at key (s.dials key - 1) s.dials;
      })
  unfolding release_reservation
  failed-Invariant key some_dial = elim (Option-cases (lookup key s.pool.hosts)) [
    | inl q ↦
        rw (release_reservation, q)
          (record {
            while_open = λ h. absurd (
                omega (
                  arith,
                  some_dial,
                  no_dials opts.max_per_host (s.dials key)
                      (rw (← get_host-missing key s.pool q) (i.while_open h key)),
                ));
            when_closed = i.when_closed;
          })
    | inr (host, q) ↦
        let same : get_host key s.pool ≡ host = get_host-found key host s.pool q in
        elim (Bool-cases s.pool.closed) [
          | inl c ↦ closed_failed key host q c
          | inr c ↦
              let (positive, less) =
                failed-Sound opts.max_per_host (s.dials key - 1) host (suc host.notify) (
                  pending-Sound opts.max_per_host (s.dials key) host some_dial
                    (rw (← same) (i.while_open c key))) in
              rw (release_reservation, q, positive)
                (record {
                  while_open = λ h. put-Open opts s key _ _ less (i.while_open c);
                  when_closed = λ h. absurd (ground (arith, h, c));
                })
        ]
  ]

  brought-Invariant :
      (key : Text) (c : Client)
      → 0 < s.dials key
      → held c (get_host key s.pool) ≡ 0
      → Invariant opts (end_dial key (ok c) s)
  unfolding end_dial dial_reserved
  brought-Invariant key c some_dial new = elim (Bool-cases s.pool.closed) [
    | inl q ↦
        rw (end_dial, dial_reserved, q)
          (record {
            while_open = λ h. absurd cc;
            when_closed = λ h. put-Empty s.pool key _ (i.when_closed q key) (i.when_closed q);
          })
    | inr q ↦
        rw (end_dial, dial_reserved, q)
          (record {
            while_open = λ h.
                put-Open opts s key _ _
                  (dialled-Sound opts.max_per_host (s.dials key - 1) (get_host key s.pool) c new (
                    pending-Sound opts.max_per_host (s.dials key) (get_host key s.pool) some_dial
                      (i.while_open q key)))
                  (i.while_open q);
            when_closed = λ h. absurd cc;
          })
  ]

  pub dialled-Invariant :
      (key : Text) (r : Result Client)
      → 0 < s.dials key
      → New key r s.pool
      → Invariant opts (end_dial key r s)
  unfolding end_dial dial_reserved
  dialled-Invariant key (ok c) some_dial new = brought-Invariant key c some_dial new
  dialled-Invariant key (err e) some_dial new = failed-Invariant key some_dial

  pub released-Invariant :
      (now : ℤ) (key : Text) (c : Option Client)
      → Invariant opts (record s { pool = (release now key c s.pool).0 })
  unfolding release get_host
  released-Invariant now key none = i
  released-Invariant now key (some c) = elim (Option-cases (lookup key s.pool.hosts)) [
    | inl q ↦ rw (release, q) i
    | inr (host, q) ↦ elim (Bool-cases (member c host.active)) [
      | inr m ↦ rw (release, q, m) i
      | inl m ↦
          let same : get_host key s.pool ≡ host = get_host-found key host s.pool q in
          rw (release, q, m)
            (record {
              while_open = λ h. rw h (
                  keep-Open opts s key _
                    (release_host-Sound opts.max_per_host (s.dials key) now c host m
                      (rw (← same) (i.while_open h key)))
                    (i.while_open h));
              when_closed = λ h.
                  let none_active : host.active ≡ [] = rw (← same) (i.when_closed h key).1 in
                  absurd (held_none c host.active none_active m);
            })
    ]
  ]

  pub reaped-Invariant :
      (now : ℤ) → Invariant opts (record s { pool = (reap_idle opts now s.pool).0 })
  unfolding reap_idle
  reaped-Invariant now = record {
    while_open = λ h key. rw (get_host-reap_idle opts now key s.pool) (
        reap_host-Sound opts.max_per_host (s.dials key) opts now (get_host key s.pool)
          (i.while_open h key));
    when_closed = λ h key.
        rw (get_host-reap_idle opts now key s.pool)
          (reap_host-empty opts now (get_host key s.pool) (i.when_closed h key));
  }

  pub closed-Invariant : Invariant opts (record s { pool = (close s.pool).0 })
  unfolding close get_host
  closed-Invariant = elim (Bool-cases s.pool.closed) [
    | inl q ↦
        rw (close, q) (record { while_open = λ h. absurd cc; when_closed = λ h. i.when_closed q })
    | inr q ↦ record {
      while_open = λ h. absurd (ground (arith, h, q));
      when_closed = λ h key. get_host-close key s.pool q;
    }
  ]
