-- ===== src/Presets/Catalog.antt =====
-- The catalogue of a directory: what the registry that is made of it answers.
use webox.Prelude.{
  ◌≡◌, refl, sym, ap, subst, ◌∙◌, ◌≢◌, ◌⊎◌, inl, inr, ◌↔◌, List, [], ◌∷◌, none, some, Option-cases,
  Bool-cases,
}
use webox.Prelude.Text.{Text, text_eq, text_eq_iff, text_eq_sound, lookup, insert, lookup-insert}
use webox.Errors.{ok}
use webox.Presets.{Preset}
use webox.Presets.Order.{In}
use webox.Presets.Validator.{Checks}
use webox.Presets.Load.{Entry, Source, LoadResult, file_of, load_dir}
use webox.Presets.Load.Files.{AreDistinct, distinct-same, Loads, Loads-unique}
use webox.Presets.Load.Loaded.{load_dir_iff}
use webox.Presets.Registry.{Registry, index_presets, new_registry_from_result, get_preset}

-- An entry of the index is a preset of that id, or was there before.
index_presets_sound :
    (ps : List Preset) (m : List (Text × Preset)) (id : Text) (p : Preset)
    → lookup id (index_presets ps m) ≡ some p
    → (In p ps × (p.id ≡ id)) ⊎ (lookup id m ≡ some p)
unfolding index_presets
index_presets_sound [] m id p h = inr h
index_presets_sound (q ∷ ps) m id p h = elim (index_presets_sound ps (insert q.id q m) id p h) [
  | inl (k, e) ↦ inl (inr k, e)
  | inr found ↦ elim (Bool-cases (text_eq q.id id)) [
    | inr n ↦ inr (sym (rw n at (lookup-insert q.id id q m)) ∙ found)
    | inl y ↦
        (let some_q : some q ≡ some p = sym (rw y at (lookup-insert q.id id q m)) ∙ found in
          let same : q ≡ p = cc some_q in
          inl (inl same, ap (λ z. z.id) (sym same) ∙ text_eq_sound q.id id y))
  ]
]

-- An id that the index lacks is that of no preset.
index_presets_complete :
    (ps : List Preset) (m : List (Text × Preset)) (id : Text)
    → lookup id (index_presets ps m) ≡ none
    → (lookup id m ≡ none) × ((p : Preset) → In p ps → p.id ≢ id)
unfolding index_presets
index_presets_complete [] m id h = (h, λ p k. absurd k)
index_presets_complete (q ∷ ps) m id h =
    let (before, later) = index_presets_complete ps (insert q.id q m) id h in
    elim (Bool-cases (text_eq q.id id)) [
      | inl y ↦ absurd (cc (rw y at (lookup-insert q.id id q m), before))
      | inr n ↦ (
        sym (rw n at (lookup-insert q.id id q m)) ∙ before,
        λ p k. elim k [
          | inl same ↦ λ e. absurd (cc (n, (text_eq_iff q.id id).1 (ap (λ z. z.id) same ∙ e)))
          | inr j ↦ later p j
        ],
      )
    ]

get_iff :
    (r : Registry) (id : Text) (p : Preset)
    → (get_preset r id ≡ ok p) ↔ (lookup id r.by_id ≡ some p)
unfolding get_preset
get_iff r id p = elim (Option-cases (lookup id r.by_id)) [
  | inl n ↦ (λ h. absurd (cc (rw (get_preset, n) at h)), λ h. absurd (cc (n, h)))
  | inr (q, s) ↦ (λ h. cc (rw (get_preset, s) at h, s), λ h. rw (get_preset, h) refl)
]

module _ (env : Checks) (src : Source) where
  -- In a directory in which no two files have one name, the registry answers an id with a preset
  -- exactly when a file that is to be loaded has the id for its name, can be read, and is parsed to
  -- that preset, of that id.
  pub get_preset-load_dir :
      (entries : List Entry) (res : LoadResult) (id : Text) (p : Preset)
      → AreDistinct entries
      → src.entries ≡ ok entries
      → load_dir env src ≡ ok res
      → (get_preset (new_registry_from_result res) id ≡ ok p)
        ↔ ((p.id ≡ id) × ((e : Entry) × In e entries × Loads env src e p))
  unfolding new_registry_from_result lookup
  get_preset-load_dir entries res id p distinct read loaded =
      let index = index_presets res.presets [] in
      let (into, out) = get_iff (new_registry_from_result res) id p in
      let member = λ (q : Preset). load_dir_iff env src entries res q distinct read loaded in
      (
        λ h. elim (index_presets_sound res.presets [] id p (into h)) [
          | inr empty ↦ absurd (cc empty)
          | inl (k, e) ↦ (e, (member p).0 k)
        ],
        λ (e, a). elim (Option-cases (lookup id index)) [
          | inl n ↦ absurd ((index_presets_complete res.presets [] id n).1 p ((member p).1 a) e)
          | inr (q, found) ↦ (elim (index_presets_sound res.presets [] id q found) [
            | inr empty ↦ absurd (cc empty)
            | inl (k, i) ↦
                (let b = (member q).0 k in
                  let files : a.0 ≡ b.0 =
                    distinct-same entries a.0 b.0 distinct a.1 b.1
                      (a.2.1.3 ∙ ap file_of (e ∙ sym i) ∙ sym b.2.1.3) in
                  let same : p ≡ q =
                    Loads-unique env src b.0 p q (subst (λ z. Loads env src z p) files a.2) b.2 in
                  out (found ∙ ap some (sym same)))
          ])
        ],
      )
