-- ===== src/Status/Tests.antt =====
-- The cache on concrete entries.
use webox.Prelude.Text.{has_prefix}
use webox.Prelude.Text.{text_eq}
use webox.Prelude.{
  ◌≡◌, refl, ℕ, true, false, [], ◌∷◌, Option, none, some, length, ◌+◌, if◌then◌else◌, ◌⊎◌,
}
use webox.Prelude.Int.{ℤ, pos, ltb_ℤ, ◌+ℤ◌}
use webox.Prelude.Text.{Text, codes, lookup}
use webox.Errors.{Error, Result, ok, err}
use webox.Status.Cache
use webox.Status.Answers.{DoRuns, Unboxes, get_or_fetch-later}
use webox.Status.Events.{deploy, invalidate_event, prefixes_for_event}
use webox.Status.Invalidation.{invalidate_event-lookup, starts_with_any}

-- The world is the clock; a value is a number, or of another type.
abbrev test_env : Cache.Env (Option ℕ) ℤ ℕ
test_env = record { now = λ w. w; group_do = λ key f c. f c; box = some; unbox = λ v. v }

abbrev test_entry : Cache.Entry (Option ℕ)
test_entry = record { value = some 7; expires_at = pos 40; fetched_at = pos 10 }

abbrev test_cache : Cache.Cache (Option ℕ) ℤ
test_cache = record {
  entries = (codes "http:a", test_entry) ∷ (codes "ssl:a", test_entry) ∷ [];
  world = pos 50;
}

abbrev test_fetch : ℤ → ℤ × Result ℕ
test_fetch w = (pos 60, ok 9)

test_group-DoRuns : DoRuns test_env
unfolding DoRuns
test_group-DoRuns = λ key f c. refl

test_box-Unboxes : Unboxes test_env
unfolding Unboxes
test_box-Unboxes = λ t. refl

-- An expired value is answered, as stale.
stale_answer :
    (Cache.get_or_fetch test_env (codes "http:a") (pos 30) test_fetch test_cache).1
    ≡ record { result = ok 7; is_stale = true; refreshes = true }
unfolding Cache.get_or_fetch lookup text_eq
stale_answer = refl

found : lookup (codes "http:a") test_cache.entries ≡ some test_entry
unfolding lookup text_eq
found = refl

missing : lookup (codes "http:b") test_cache.entries ≡ none
unfolding lookup text_eq
missing = refl

-- A value fetched at time 60 for 30 is read again at time 91.
abbrev once : Cache.Cache (Option ℕ) ℤ × Cache.Answer ℕ
once = Cache.get_or_fetch test_env (codes "http:b") (pos 30) test_fetch test_cache

abbrev later : Cache.Cache (Option ℕ) ℤ
later = record { entries = once.0.entries; world = pos 91 }

get_or_fetch-later_example :
    ((j : Text)
      → text_eq (codes "http:b") j ≡ false
      → lookup j once.0.entries ≡ lookup j test_cache.entries)
    × (((e : Error) × ((test_fetch (pos 50)).1 ≡ err e)
          × (once.1.result ≡ err e)
          × (lookup (codes "http:b") once.0.entries ≡ none))
        ⊎ ((value : ℕ) × ((test_fetch (pos 50)).1 ≡ ok value)
            × (once.1.result ≡ ok value)
            × (Cache.get_or_fetch test_env (codes "http:b") (pos 5) test_fetch later ≡ (
              later,
              record {
                result = ok value;
                is_stale = ltb_ℤ (pos 60 +ℤ pos 30) (pos 91);
                refreshes = ltb_ℤ (pos 60 +ℤ pos 30) (pos 91);
              },
            ))))
get_or_fetch-later_example =
    get_or_fetch-later test_env test_group-DoRuns test_box-Unboxes (codes "http:b") (pos 30) (pos 5)
      test_fetch test_fetch test_cache (pos 91) missing

deploy_keeps_ssl : length (invalidate_event deploy test_cache.entries).0 ≡ 1
unfolding invalidate_event Cache.invalidate has_prefix
deploy_keeps_ssl = refl

invalidate_event-lookup_example :
    ((key : Text)
      → lookup key (invalidate_event deploy test_cache.entries).0 ≡ (
          if starts_with_any (prefixes_for_event deploy) key
          then none
          else lookup key test_cache.entries))
    × (length (invalidate_event deploy test_cache.entries).0
          + (invalidate_event deploy test_cache.entries).1
        ≡ 2)
invalidate_event-lookup_example = invalidate_event-lookup deploy test_cache.entries
