-- ===== src/Ssh/Pool/Hosts.antt =====
-- What the pool keeps of each host, and that the functions on a host keep it.
use webox.Prelude.{
  ◌≡◌, refl, ap, ◌∙◌, inl, inr, Bool-cases, ℕ, suc, ◌+◌, ◌≤◌, true, false, List, [], ◌∷◌, ◌++◌,
  ◌==◌, length, length-append, arith,
}
use webox.Prelude.Int.{ℤ, pos, ◌+ℤ◌, ◌-ℤ◌, ◌≤ℤ◌, ◌<ℤ◌, ltb_ℤ, +ℤ_parts, -ℤ_parts}
use webox.Ssh.Options.{PoolOptions}
use webox.Ssh.Host.{
  Client, PooledClient, HostPool, new_host, member, add, clients_of, split_expired, count_down,
  reap_host, Reserved, refused, reuse, dial, wait, reserve_host, release_host,
}
use webox.Ssh.Pool.Counts.{
  one_if, count, count-append, member-count, add-missing, count-delete, length-delete,
  clients_of-append, count-split_expired, length-split_expired, pred_pos, suc_pos, count_down_pos,
  last_idle-cases,
}

-- How often a client stands among the clients of a host.
abbrev pub held : Client → HostPool → ℕ
held c host = count c (clients_of host.idle) + count c host.active

-- With `dials` dials under way the total counts them, the idle and the active clients; it is
-- within the limit; and a client is held once at most.
pub record Sound (limit : ℤ) (dials : ℕ) (host : HostPool) : Type 0 where
  pub total : host.total ≡ pos (length host.idle + length host.active + dials)
  pub limited : host.total ≤ℤ limit
  pub once : (c : Client) → held c host ≤ 1

pub new_host-Sound : (limit : ℤ) → pos 0 ≤ℤ limit → Sound limit 0 new_host
unfolding new_host count
new_host-Sound limit h = record { total = refl; limited = h; once = λ c. omega arith }

-- The dials under way after an answer of reserveOrWait.
abbrev pub dials_after : ℕ → Reserved → ℕ
dials_after n (refused e) = n
dials_after n (reuse c) = n
dials_after n dial = suc n
dials_after n (wait w) = n

pub reap_host-fields :
    (opts : PoolOptions) (now : ℤ) (host : HostPool)
    → ((reap_host opts now host).0.idle ≡ (split_expired opts.idle_timeout now host.idle).0)
      × ((reap_host opts now host).0.active ≡ host.active)
      × ((reap_host opts now host).0.total
          ≡ count_down host.total (split_expired opts.idle_timeout now host.idle).1)
unfolding reap_host
reap_host-fields opts now host = ground arith

module _ (limit : ℤ) (dials : ℕ) where
  pub reap_host-Sound :
      (opts : PoolOptions) (now : ℤ) (host : HostPool)
      → Sound limit dials host
      → Sound limit dials (reap_host opts now host).0
  reap_host-Sound opts now host s =
      let (kept, same, less) = reap_host-fields opts now host in
      let t : (reap_host opts now host).0.total
          ≡ pos (
              length (reap_host opts now host).0.idle
              + length (reap_host opts now host).0.active
              + dials) =
        rw (kept, same, less, s.total)
          (count_down_pos
            (length (split_expired opts.idle_timeout now host.idle).0 + length host.active + dials)
            (length host.idle + length host.active + dials)
            (split_expired opts.idle_timeout now host.idle).1
            (omega (arith, length-split_expired opts.idle_timeout now host.idle))) in
      record {
        total = t;
        limited = ground (
          arith,
          s.limited,
          s.total,
          t,
          kept,
          same,
          length-split_expired opts.idle_timeout now host.idle,
        );
        once = λ c.
            rw (kept, same) omega
              (arith, s.once c, count-split_expired c opts.idle_timeout now host.idle);
      }

  count_dial :
      (host : HostPool)
      → (host.total <ℤ limit)
      → Sound limit dials host
      → Sound limit (suc dials) (record host { total = host.total +ℤ pos 1 })
  count_dial host room s = record {
    total =
        ap (λ t. t +ℤ pos 1) s.total
        ∙ suc_pos (length host.idle + length host.active + dials)
        ∙ ap pos (omega arith);
    limited = ground (arith, +ℤ_parts host.total (pos 1), room);
    once = s.once;
  }

  reuse-Sound :
      (host : HostPool) (before : List PooledClient) (i : PooledClient)
      → host.idle ≡ before ++ i ∷ []
      → Sound limit dials host
      → Sound limit dials (record host { idle = before; active = add i.client host.active })
  unfolding count
  reuse-Sound host before i whole s =
      let counts : (c : Client)
          → held c host
            ≡ count c (clients_of before) + one_if (i.client == c) + count c host.active =
        λ c.
          rw (whole, clients_of-append before (i ∷ [])) omega
            (arith, count-append c (clients_of before) (i.client ∷ [])) in
      let fresh : count i.client host.active ≡ 0 =
        ground (arith, counts i.client, s.once i.client) in
      record {
        total =
            s.total
            ∙ ap pos (
                rw (whole, add-missing i.client host.active fresh) ground
                  (
                    arith,
                    length-append before (i ∷ []),
                    length-append host.active (i.client ∷ []),
                  ));
        limited = s.limited;
        once = λ c.
            rw (add-missing i.client host.active fresh) omega
              (arith, counts c, s.once c, count-append c host.active (i.client ∷ []));
      }

  pub dialled-Sound :
      (host : HostPool) (client : Client)
      → held client host ≡ 0
      → Sound limit (suc dials) host
      → Sound limit dials (record host { active = add client host.active })
  unfolding count
  dialled-Sound host client new s =
      let fresh : count client host.active ≡ 0 = omega (arith, new) in
      record {
        total =
            s.total
            ∙ ap pos (
                rw (add-missing client host.active fresh) omega
                  (arith, length-append host.active (client ∷ [])));
        limited = s.limited;
        once = λ c.
            rw (add-missing client host.active fresh) ground
              (arith, new, s.once c, count-append c host.active (client ∷ []));
      }

  pub failed-Sound :
      (host : HostPool) (n : ℕ)
      → Sound limit (suc dials) host
      → (ltb_ℤ (pos 0) host.total ≡ true)
        × Sound limit dials (record host { total = host.total -ℤ pos 1; notify = n })
  failed-Sound host n s =
      let shift : length host.idle + length host.active + suc dials
          ≡ suc (length host.idle + length host.active + dials) =
        omega arith in
      (
        ground (arith, s.total),
        record {
          total =
              ap (λ t. t -ℤ pos 1) s.total
              ∙ ap (λ k. pos k -ℤ pos 1) shift
              ∙ pred_pos (length host.idle + length host.active + dials);
          limited = ground (arith, -ℤ_parts host.total (pos 1), s.limited, s.total);
          once = s.once;
        },
      )

  -- A host with no client idle and room for one more dial counts it.
  pub reserve_host-Sound :
      (opts : PoolOptions) (host : HostPool)
      → opts.max_per_host ≡ limit
      → Sound limit dials host
      → Sound limit (dials_after dials (reserve_host opts host).1) (reserve_host opts host).0
  unfolding reserve_host
  reserve_host-Sound opts host e s = elim (last_idle-cases host.idle) [
    | inl (q, empty) ↦ elim (Bool-cases (ltb_ℤ host.total opts.max_per_host)) [
      | inl r ↦ rw (reserve_host, q, r) (count_dial host (ground (arith, r, e)) s)
      | inr r ↦ rw (reserve_host, q, r) s
    ]
    | inr (before, i, q, whole) ↦ rw (reserve_host, q) (reuse-Sound host before i whole s)
  ]

  pub release_host-Sound :
      (now : ℤ) (client : Client) (host : HostPool)
      → member client host.active ≡ true
      → Sound limit dials host
      → Sound limit dials (release_host false now client host)
  unfolding release_host count
  release_host-Sound now client host m s = record {
    total =
        s.total
        ∙ ap pos (
            omega (
              arith,
              length-append host.idle ((record { client = client; last_used = now }) ∷ []),
              length-delete client host.active,
              member-count client host.active m,
              s.once client,
            ));
    limited = s.limited;
    once = λ c.
        rw
          (
            clients_of-append host.idle ((record { client = client; last_used = now }) ∷ []),
            count-append c (clients_of host.idle) (client ∷ []),
            count-delete c client host.active,
          )
          ground (arith, s.once c, s.once client, member-count client host.active m);
  }
