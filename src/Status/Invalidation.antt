-- ===== src/Status/Invalidation.antt =====
-- status/cache.go and status/ttl.go: what the invalidations remove.
use webox.Prelude.{
  ◌≡◌, refl, ◌+◌, Bool, false, ◌||◌, List, [], ◌∷◌, none, if◌then◌else◌, length, arith,
}
use webox.Prelude.Text.{Text, lookup, has_prefix, text_eq_iff}
use webox.Status.Cache.{Entry, invalidate}
use webox.Status.Events.{Event, prefixes_for_event, invalidate_all, invalidate_event}

abbrev pub starts_with_any : List Text → Text → Bool
starts_with_any [] key = false
starts_with_any (p ∷ ps) key = has_prefix key p || starts_with_any ps key

module _ {Any : Type 0} where
  pub lookup-invalidate :
      (prefix key : Text) (m : List (Text × Entry Any))
      → lookup key (invalidate prefix m).0 ≡ (if has_prefix key prefix then none else lookup key m)
  unfolding lookup invalidate
  lookup-invalidate prefix key [] = ground arith
  lookup-invalidate prefix key ((j, e) ∷ m) =
      ground (arith, text_eq_iff j key, lookup-invalidate prefix key m)

  pub invalidate_counts :
      (prefix : Text) (m : List (Text × Entry Any))
      → length (invalidate prefix m).0 + (invalidate prefix m).1 ≡ length m
  unfolding invalidate
  invalidate_counts prefix [] = refl
  invalidate_counts prefix ((j, e) ∷ m) = ground (arith, invalidate_counts prefix m)

  pub lookup-invalidate_all :
      (ps : List Text) (key : Text) (m : List (Text × Entry Any))
      → lookup key (invalidate_all ps m).0 ≡ (if starts_with_any ps key then none else lookup key m)
  unfolding invalidate_all
  lookup-invalidate_all [] key m = refl
  lookup-invalidate_all (p ∷ ps) key m =
      ground (arith, lookup-invalidate_all ps key (invalidate p m).0, lookup-invalidate p key m)

  pub invalidate_all_counts :
      (ps : List Text) (m : List (Text × Entry Any))
      → length (invalidate_all ps m).0 + (invalidate_all ps m).1 ≡ length m
  unfolding invalidate_all
  invalidate_all_counts [] m = omega arith
  invalidate_all_counts (p ∷ ps) m =
      ground (arith, invalidate_all_counts ps (invalidate p m).0, invalidate_counts p m)

  -- After an event the keys that start with one of its prefixes are gone, all others read as
  -- before, and the number answered is the number of entries removed.
  pub invalidate_event-lookup :
      (event : Event) (m : List (Text × Entry Any))
      → ((key : Text)
          → lookup key (invalidate_event event m).0
            ≡ (if starts_with_any (prefixes_for_event event) key then none else lookup key m))
        × (length (invalidate_event event m).0 + (invalidate_event event m).1 ≡ length m)
  unfolding invalidate_event
  invalidate_event-lookup event m = (
    λ key. lookup-invalidate_all (prefixes_for_event event) key m,
    invalidate_all_counts (prefixes_for_event event) m,
  )
