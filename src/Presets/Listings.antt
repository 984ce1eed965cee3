-- ===== src/Presets/Listings.antt =====
-- What the two listings of presets/registry.go hold, and in which order.
use webox.Prelude.{◌≡◌, ◌⊎◌, ◌↔◌, ◌<◌, ℕ, suc, true, false, List, [], ◌∷◌, if◌then◌else◌, arith}
use webox.Prelude.Text.{Text, codes, text_eq, text_eq_iff, text_eq_sound, text_le}
use webox.Presets.{Preset, region}
use webox.Presets.Order.{
  In, filter, In-filter, sort_by, In-sort_by, IsOrdered, sort_by-IsOrdered, text_lt_asym, text_lt,
}
use webox.Presets.Registry.{
  Registry, status_rank, status_then_id, sort_by_status_then_id, by_provider_type, by_region,
}

-- The statuses in the order in which the catalogue shows them.
abbrev pub shown : List Text
shown =
    codes "verified"
    ∷ codes "candidate"
    ∷ codes "research"
    ∷ codes "community"
    ∷ codes "deprecated"
    ∷ []

-- Where a text first stands in a list, or the length of the list.
unfoldable pub place : Text → List Text → ℕ
unfolding text_eq
place s [] = 0
place s (t ∷ ts) = if text_eq s t then 0 else suc (place s ts)

-- The status of the first is shown before that of the second, or both stand in one place and the id
-- of the first is no greater.
abbrev pub Precedes : Preset → Preset → Type 0
Precedes p q =
    (place p.status shown < place q.status shown)
    ⊎ ((place p.status shown ≡ place q.status shown) × (text_le p.id q.id ≡ true))

abbrev pub IsShown : List Preset → Type 0
IsShown [] = Unit
IsShown (p ∷ []) = Unit
IsShown (p ∷ q ∷ ps) = Precedes p q × IsShown (q ∷ ps)

status_rank-place : (s : Text) → status_rank s ≡ place s shown
unfolding status_rank place
status_rank-place s = ground arith

not_less : (p q : Preset) → status_then_id q p ≡ false → Precedes p q
unfolding status_then_id text_lt
not_less p q h = ground (arith, h, status_rank-place p.status, status_rank-place q.status)

IsOrdered-IsShown : (ps : List Preset) → IsOrdered status_then_id ps → IsShown ps
IsOrdered-IsShown [] h = tt
IsOrdered-IsShown (p ∷ []) h = tt
IsOrdered-IsShown (p ∷ q ∷ ps) h = (not_less p q h.0, IsOrdered-IsShown (q ∷ ps) h.1)

status_then_id_asym : (p q : Preset) → status_then_id p q ≡ true → status_then_id q p ≡ false
unfolding status_then_id
status_then_id_asym p q h = ground (arith, h, text_lt_asym p.id q.id)

sorted-IsShown : (ps : List Preset) → IsShown (sort_by status_then_id ps)
sorted-IsShown ps =
    IsOrdered-IsShown (sort_by status_then_id ps)
      (sort_by-IsOrdered status_then_id status_then_id_asym ps)

-- ByProviderType and ByRegion give exactly the presets of the type and of the region, with the
-- statuses in the order verified, candidate, research, community, deprecated and any other, and
-- presets of one status in the order of their ids.
pub listings_lem :
    (r : Registry) (t : Text) (p : Preset)
    → (In p (by_provider_type r t) ↔ (In p r.presets × (p.provider_type ≡ t)))
      × (In p (by_region r t) ↔ (In p r.presets × (region p ≡ t)))
      × IsShown (by_provider_type r t)
      × IsShown (by_region r t)
unfolding by_provider_type by_region sort_by_status_then_id
listings_lem r t p = (
  listing (λ q. q.provider_type),
  listing region,
  sorted-IsShown (filter (λ q. text_eq q.provider_type t) r.presets),
  sorted-IsShown (filter (λ q. text_eq (region q) t) r.presets),
)
  where
    listing :
        (f : Preset → Text)
        → In p (sort_by status_then_id (filter (λ q. text_eq (f q) t) r.presets))
          ↔ (In p r.presets × (f p ≡ t))
    listing f =
        let (there, back) = In-sort_by status_then_id p (filter (λ q. text_eq (f q) t) r.presets) in
        let (out, into) = In-filter (λ q. text_eq (f q) t) p r.presets in
        (
          λ h. let k = out (there h) in (k.0, text_eq_sound (f p) t k.1),
          λ h. back (into (h.0, (text_eq_iff (f p) t).1 h.1)),
        )
