-- ===== src/Status/Cache.antt =====
-- status/cache.go: the cache with stale-while-revalidate reads. `W` is the world outside: the
-- clock and what a fetch asks. A value of any type is stored as an `Any`. Times are nanoseconds.
use webox.Prelude.{ℕ, suc, Bool, false, List, [], ◌∷◌, Option, none, some, if◌then◌else◌, neg}
use webox.Prelude.Int.{ℤ, pos, ◌+ℤ◌, ◌-ℤ◌, ltb_ℤ, leb_ℤ}
use webox.Prelude.Text.{Text, lookup, insert, has_prefix}
use webox.Errors.{sentinel, wrap, type_mismatch, Result, ok, err}

abbrev pub default_background_timeout : ℤ
default_background_timeout = pos 30000000000

pub record Entry (Any : Type 0) : Type 0 where
  pub value : Any
  pub expires_at : ℤ
  pub fetched_at : ℤ

-- The entries, and the world that they stand in.
pub record Cache (Any W : Type 0) : Type 0 where
  pub entries : List (Text × Entry Any)
  pub world : W

pub record Metadata : Type 0 where
  pub is_stale : Bool
  pub age : ℤ
  pub fetched_at : ℤ
  pub expires_at : ℤ

-- NewCache's reading of the option BackgroundTimeout.
unfoldable pub background_timeout_of : ℤ → ℤ
background_timeout_of t = if leb_ℤ t (pos 0) then default_background_timeout else t

-- What a reader is told: the value or the error, whether it is stale, and whether a goroutine was
-- started that will run `refresh`.
pub record Answer (T : Type 0) : Type 0 where
  pub result : Result T
  pub is_stale : Bool
  pub refreshes : Bool

pub record MetaAnswer (T : Type 0) : Type 0 where
  pub result : Result T
  pub meta : Metadata
  pub refreshes : Bool

unfoldable pub no_metadata : Metadata
no_metadata = record { is_stale = false; age = pos 0; fetched_at = pos 0; expires_at = pos 0 }

unfoldable pub metadata_for : {Any : Type 0} → Entry Any → ℤ → Metadata
metadata_for cached now = record {
  is_stale = ltb_ℤ cached.expires_at now;
  age = if ltb_ℤ (now -ℤ cached.fetched_at) (pos 0) then pos 0 else now -ℤ cached.fetched_at;
  fetched_at = cached.fetched_at;
  expires_at = cached.expires_at;
}

-- What the cache is given: the clock, the singleflight group's Do, and the conversions of a `T` to
-- `any` and back, where the type assertion may fail.
pub record Env (Any W T : Type 0) : Type 0 where
  pub now : W → ℤ
  pub group_do :
      Text → (Cache Any W → Cache Any W × Result Any) → Cache Any W → Cache Any W × Result Any
  pub box : T → Any
  pub unbox : Any → Option T

module _ {Any W T : Type 0} (env : Env Any W T) where
  unfoldable pub cast : Any → Result T
  cast value = elim (env.unbox value) [
    | none ↦ err (wrap (sentinel type_mismatch))
    | some typed ↦ ok typed
  ]

  unfoldable pub new_entry : T → ℤ → ℤ → Entry Any
  new_entry value ttl now = record {
    value = env.box value;
    expires_at = now +ℤ ttl;
    fetched_at = now;
  }

  -- The function given to Do.
  unfoldable pub fetch_and_store :
      Text → ℤ → (W → W × Result T) → Cache Any W → Cache Any W × Result Any
  unfolding new_entry
  fetch_and_store key ttl fetch c =
      let (w, fetched) = fetch c.world in
      elim fetched [
        | err e ↦ (record c { world = w }, err e)
        | ok value ↦ (
          record { entries = insert key (new_entry value ttl (env.now w)) c.entries; world = w },
          ok (env.box value),
        )
      ]

  unfoldable pub do_fetch : Text → ℤ → (W → W × Result T) → Cache Any W → Cache Any W × Result T
  unfolding fetch_and_store
  do_fetch key ttl fetch c =
      let (c', got) = env.group_do key (fetch_and_store key ttl fetch) c in
      elim got [ err e ↦ (c', err e) | ok value ↦ (c', cast value) ]

  -- What the goroutine of refreshBackground does; `fetch` is the fetch under its own context.
  unfoldable pub refresh : Text → ℤ → (W → W × Result T) → Cache Any W → Cache Any W
  unfolding do_fetch
  refresh key ttl fetch c = (do_fetch key ttl fetch c).0

  unfoldable pub get_or_fetch : Text → ℤ → (W → W × Result T) → Cache Any W → Cache Any W × Answer T
  unfolding do_fetch cast
  get_or_fetch key ttl fetch c = elim (lookup key c.entries) [
    | some cached ↦ elim (cast cached.value) [
      | err e ↦ (c, record { result = err e; is_stale = false; refreshes = false })
      | ok value ↦
          let fresh = leb_ℤ (env.now c.world) cached.expires_at in
          (c, record { result = ok value; is_stale = neg fresh; refreshes = neg fresh })
    ]
    | none ↦
        let (c', result) = do_fetch key ttl fetch c in
        (c', record { result = result; is_stale = false; refreshes = false })
  ]

  -- The metadata after a blocking fetch.
  unfoldable pub meta_after : Text → Cache Any W → Metadata
  unfolding metadata_for no_metadata
  meta_after key c = elim (lookup key c.entries) [
    | none ↦ no_metadata
    | some cached ↦ metadata_for cached (env.now c.world)
  ]

  unfoldable pub get_or_fetch_meta :
      Text → ℤ → (W → W × Result T) → Cache Any W → Cache Any W × MetaAnswer T
  unfolding do_fetch cast meta_after metadata_for
  get_or_fetch_meta key ttl fetch c = elim (lookup key c.entries) [
    | some cached ↦ elim (cast cached.value) [
      | err e ↦ (c, record { result = err e; meta = no_metadata; refreshes = false })
      | ok value ↦
          let meta = metadata_for cached (env.now c.world) in
          (c, record { result = ok value; meta = meta; refreshes = meta.is_stale })
    ]
    | none ↦
        let (c', result) = do_fetch key ttl fetch c in
        elim result [
          | err e ↦ (c', record { result = err e; meta = no_metadata; refreshes = false })
          | ok value ↦
              (c', record { result = ok value; meta = meta_after key c'; refreshes = false })
        ]
  ]

-- Invalidate, on the entries: those left, and how many were removed.
unfoldable pub invalidate :
    {Any : Type 0} → Text → List (Text × Entry Any) → List (Text × Entry Any) × ℕ
invalidate prefix [] = ([], 0)
invalidate prefix ((key, e) ∷ m) =
    let (kept, removed) = invalidate prefix m in
    if has_prefix key prefix then (kept, suc removed) else ((key, e) ∷ kept, removed)
