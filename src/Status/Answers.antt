-- ===== src/Status/Answers.antt =====
-- status/cache.go: what the two ways to read the cache answer.
use webox.Prelude.{◌≢◌, ◌≡◌, refl, ◌⊎◌, inl, inr, Option-cases, false, none, some, arith}
use webox.Prelude.Int.{ℤ, ltb_ℤ, ◌+ℤ◌}
use webox.Prelude.Text.{Text, lookup, insert, text_eq, text_eq_refl, lookup-insert}
use webox.Errors.{Error, sentinel, wrap, type_mismatch, Result, ok, err, Result-cases}
use webox.Status.Cache

module _ {Any W T : Type 0} (env : Cache.Env Any W T) where
  -- singleflight's Do when no call for the key is under way: it runs the function.
  unfoldable pub DoRuns : Type 0
  DoRuns =
      (key : Text) (f : Cache.Cache Any W → Cache.Cache Any W × Result Any) (c : Cache.Cache Any W)
      → env.group_do key f c ≡ f c

  -- A type assertion to the type a value was stored under.
  unfoldable pub Unboxes : Type 0
  Unboxes = (t : T) → env.unbox (env.box t) ≡ some t

  -- A key in the cache is answered at once.
  get_or_fetch-cached :
      (key : Text) (ttl : ℤ) (fetch : W → W × Result T) (c : Cache.Cache Any W)
      (cached : Cache.Entry Any)
      → lookup key c.entries ≡ some cached
      → ((env.unbox cached.value ≡ none)
          × (Cache.get_or_fetch env key ttl fetch c ≡ (
            c,
            record {
              result = err (wrap (sentinel type_mismatch));
              is_stale = false;
              refreshes = false;
            },
          )))
        ⊎ ((value : T) × (env.unbox cached.value ≡ some value)
            × (Cache.get_or_fetch env key ttl fetch c ≡ (
              c,
              record {
                result = ok value;
                is_stale = ltb_ℤ cached.expires_at (env.now c.world);
                refreshes = ltb_ℤ cached.expires_at (env.now c.world);
              },
            )))
  unfolding Cache.get_or_fetch Cache.cast
  get_or_fetch-cached key ttl fetch c cached found = elim (Option-cases (env.unbox cached.value)) [
    | inl q ↦ inl (q, rw (Cache.get_or_fetch, found, Cache.cast, q) refl)
    | inr (value, q) ↦ inr (value, q, rw (Cache.get_or_fetch, found, Cache.cast, q) ground arith)
  ]

  do_fetch-err :
      DoRuns
      → (key : Text) (ttl : ℤ) (fetch : W → W × Result T) (c : Cache.Cache Any W) (e : Error)
      → (fetch c.world).1 ≡ err e
      → Cache.do_fetch env key ttl fetch c ≡ (record c { world = (fetch c.world).0 }, err e)
  unfolding Cache.do_fetch Cache.fetch_and_store DoRuns
  do_fetch-err runs key ttl fetch c e q =
      ground (arith, runs key (Cache.fetch_and_store env key ttl fetch) c, q)

  do_fetch-ok :
      DoRuns
      → Unboxes
      → (key : Text) (ttl : ℤ) (fetch : W → W × Result T) (c : Cache.Cache Any W) (value : T)
      → (fetch c.world).1 ≡ ok value
      → Cache.do_fetch env key ttl fetch c ≡ (
        record {
          entries =
              insert key (Cache.new_entry env value ttl (env.now (fetch c.world).0)) c.entries;
          world = (fetch c.world).0;
        },
        ok value,
      )
  unfolding Cache.do_fetch Cache.fetch_and_store Cache.cast DoRuns Unboxes
  do_fetch-ok runs unboxes key ttl fetch c value q =
      ground (arith, runs key (Cache.fetch_and_store env key ttl fetch) c, q, unboxes value)

  get_or_fetch-fetches :
      (key : Text) (ttl : ℤ) (fetch : W → W × Result T) (c : Cache.Cache Any W)
      → lookup key c.entries ≡ none
      → Cache.get_or_fetch env key ttl fetch c ≡ (
        (Cache.do_fetch env key ttl fetch c).0,
        record {
          result = (Cache.do_fetch env key ttl fetch c).1;
          is_stale = false;
          refreshes = false;
        },
      )
  unfolding Cache.get_or_fetch
  get_or_fetch-fetches key ttl fetch c q = rw (Cache.get_or_fetch, q) refl

  -- A key that is not in the cache.
  get_or_fetch-missing :
      DoRuns
      → Unboxes
      → (key : Text) (ttl : ℤ) (fetch : W → W × Result T) (c : Cache.Cache Any W)
      → lookup key c.entries ≡ none
      → ((e : Error) × ((fetch c.world).1 ≡ err e)
          × (Cache.get_or_fetch env key ttl fetch c ≡ (
            record c { world = (fetch c.world).0 },
            record { result = err e; is_stale = false; refreshes = false },
          )))
        ⊎ ((value : T) × ((fetch c.world).1 ≡ ok value)
            × (Cache.get_or_fetch env key ttl fetch c ≡ (
              record {
                entries =
                    insert key
                      (Cache.new_entry env value ttl (env.now (fetch c.world).0))
                      c.entries;
                world = (fetch c.world).0;
              },
              record { result = ok value; is_stale = false; refreshes = false },
            )))
  get_or_fetch-missing runs unboxes key ttl fetch c missing =
      elim (Result-cases (fetch c.world).1) [
        | inl (value, q) ↦ inr (
          value,
          q,
          rw
              (
                get_or_fetch-fetches key ttl fetch c missing,
                do_fetch-ok runs unboxes key ttl fetch c value q,
              )
              refl,
        )
        | inr (e, q) ↦ inl (
          e,
          q,
          rw (get_or_fetch-fetches key ttl fetch c missing, do_fetch-err runs key ttl fetch c e q)
              refl,
        )
      ]

  -- A key that is not in the cache is read twice, with no fetch for it under way, where a type
  -- assertion to the type that a value was stored under succeeds. If the first fetch fails, its error
  -- is answered and the key is still missing. Else its value is answered both times, whatever the
  -- world has become in between, the second time with no fetch and no change; and the second answer
  -- is stale and starts a refresh exactly when more than `ttl` has passed since the value was
  -- fetched. In both cases no other key changes.
  pub get_or_fetch-later :
      DoRuns
      → Unboxes
      → (key : Text) (ttl ttl' : ℤ) (fetch fetch' : W → W × Result T) (c : Cache.Cache Any W)
        (w : W)
      → lookup key c.entries ≡ none
      → let once = Cache.get_or_fetch env key ttl fetch c in
        let later : Cache.Cache Any W = record { entries = once.0.entries; world = w } in
        ((j : Text) → text_eq key j ≡ false → lookup j once.0.entries ≡ lookup j c.entries)
        × (((e : Error) × ((fetch c.world).1 ≡ err e)
              × (once.1.result ≡ err e)
              × (lookup key once.0.entries ≡ none))
            ⊎ ((value : T) × ((fetch c.world).1 ≡ ok value)
                × (once.1.result ≡ ok value)
                × (Cache.get_or_fetch env key ttl' fetch' later ≡ (
                  later,
                  record {
                    result = ok value;
                    is_stale = ltb_ℤ (env.now (fetch c.world).0 +ℤ ttl) (env.now w);
                    refreshes = ltb_ℤ (env.now (fetch c.world).0 +ℤ ttl) (env.now w);
                  },
                ))))
  unfolding Unboxes Cache.new_entry
  get_or_fetch-later runs unboxes key ttl ttl' fetch fetch' c w missing =
      elim (get_or_fetch-missing runs unboxes key ttl fetch c missing) [
        | inl (e, q, o) ↦ rw o (λ j n. refl, inl (e, q, refl, missing))
        | inr (value, q, o) ↦
            let entry = Cache.new_entry env value ttl (env.now (fetch c.world).0) in
            let entries = insert key entry c.entries in
            let found : lookup key entries ≡ some entry =
              rw (lookup-insert key key entry c.entries, text_eq_refl key) refl in
            rw o (
              λ j n. rw (lookup-insert key j entry c.entries, n) refl,
              inr (
                value,
                q,
                refl,
                elim (get_or_fetch-cached key ttl' fetch' (record { entries = entries; world = w })
                    entry found) [
                      | inl (bad, x) ↦ absurd (cc (bad, unboxes value))
                      | inr (v, u, x) ↦
                          (let same : v ≡ value = cc (u, unboxes value) in rw same at x)
                    ],
              ),
            )
      ]

  -- The two ways to read answer alike: the same value or
  -- error, the same new cache, the same refresh; and where there is a value in the cache, the
  -- metadata's staleness is the answer's.
  pub get_or_fetch_meta-get_or_fetch :
      (key : Text) (ttl : ℤ) (fetch : W → W × Result T) (c : Cache.Cache Any W)
      → ((Cache.get_or_fetch_meta env key ttl fetch c).0
          ≡ (Cache.get_or_fetch env key ttl fetch c).0)
        × ((Cache.get_or_fetch_meta env key ttl fetch c).1.result
            ≡ (Cache.get_or_fetch env key ttl fetch c).1.result)
        × ((Cache.get_or_fetch_meta env key ttl fetch c).1.refreshes
            ≡ (Cache.get_or_fetch env key ttl fetch c).1.refreshes)
        × (lookup key c.entries ≢ none
            → (Cache.get_or_fetch_meta env key ttl fetch c).1.meta.is_stale
              ≡ (Cache.get_or_fetch env key ttl fetch c).1.is_stale)
  unfolding Cache.get_or_fetch Cache.get_or_fetch_meta Cache.metadata_for
  get_or_fetch_meta-get_or_fetch key ttl fetch c = elim (Option-cases (lookup key c.entries)) [
    | inl q ↦ elim (Result-cases (Cache.do_fetch env key ttl fetch c).1) [
      | inl (v, r) ↦ ground (arith, q, r)
      | inr (e, r) ↦ ground (arith, q, r)
    ]
    | inr (cached, q) ↦ elim (Result-cases (Cache.cast env cached.value)) [
      | inl (v, r) ↦ ground (arith, q, r)
      | inr (e, r) ↦ ground (arith, q, r)
    ]
  ]
