-- ===== src/Presets/Registry.antt =====
-- presets/registry.go. The read lock guards a state that nothing changes after the construction.
use webox.Prelude.{ℕ, Bool, List, [], ◌∷◌, none, some, if◌then◌else◌, ◌==◌, ltb, length, neg}
use webox.Prelude.Text.{Text, text_eq, lookup, insert}
use webox.Errors.{Error, sentinel, wrap, preset_not_found, Result, ok, err}
use webox.Presets.{
  Preset, region, in_texts, region_poland, region_europe, region_global, region_advanced,
  status_verified, status_candidate, status_research, status_community, status_deprecated,
}
use webox.Presets.Order.{filter, sort_by, text_lt}
use webox.Presets.Load.{LoadResult, id_less}

pub record Registry : Type 0 where
  pub presets : List Preset
  pub by_id : List (Text × Preset)
  pub load_errs : List (Text × Error)

-- The loop that fills byID.
unfoldable pub index_presets : List Preset → List (Text × Preset) → List (Text × Preset)
unfolding insert
index_presets [] m = m
index_presets (p ∷ ps) m = index_presets ps (insert p.id p m)

unfoldable pub new_registry_from_result : LoadResult → Registry
unfolding index_presets sort_by text_lt
new_registry_from_result res = record {
  presets = sort_by id_less res.presets;
  by_id = index_presets res.presets [];
  load_errs = res.errors;
}

unfoldable pub get_preset : Registry → Text → Result Preset
unfolding lookup
get_preset r id = elim (lookup id r.by_id) [
  | none ↦ err (wrap (sentinel preset_not_found))
  | some p ↦ ok p
]

unfoldable pub status_rank : Text → ℕ
unfolding text_eq
status_rank s =
    if text_eq s status_verified
    then 0
    else if text_eq s status_candidate
    then 1
    else if text_eq s status_research
    then 2
    else if text_eq s status_community
    then 3
    else if text_eq s status_deprecated
    then 4
    else 5

-- The test of sortByStatusThenID.
unfoldable pub status_then_id : Preset → Preset → Bool
unfolding status_rank text_lt
status_then_id p q =
    if neg (status_rank p.status == status_rank q.status)
    then ltb (status_rank p.status) (status_rank q.status)
    else text_lt p.id q.id

unfoldable pub sort_by_status_then_id : List Preset → List Preset
unfolding sort_by status_then_id
sort_by_status_then_id = sort_by status_then_id

unfoldable pub by_provider_type : Registry → Text → List Preset
unfolding filter text_eq sort_by_status_then_id
by_provider_type r t = sort_by_status_then_id (filter (λ p. text_eq p.provider_type t) r.presets)

unfoldable pub by_region : Registry → Text → List Preset
unfolding filter text_eq region sort_by_status_then_id
by_region r t = sort_by_status_then_id (filter (λ p. text_eq (region p) t) r.presets)

abbrev regions_of : List Preset → List Text
regions_of [] = []
regions_of (p ∷ ps) = region p ∷ regions_of ps

abbrev pub display_order : List Text
display_order = region_poland ∷ region_europe ∷ region_global ∷ region_advanced ∷ []

unfoldable pub regions : Registry → List Text
unfolding in_texts region filter
regions r = filter (in_texts (regions_of r.presets)) display_order

unfoldable pub count_presets : Registry → ℕ
count_presets r = length r.presets
