-- ===== src/Presets/Load/Loaded.antt =====
-- The presets that a directory gives.
use webox.Prelude.{
  ◌≡◌, refl, sym, ap, subst, ◌∙◌, ◌⊎◌, inl, inr, ◌↔◌, List, [], ◌∷◌, some, Bool-cases,
}
use webox.Prelude.Text.{Text, text_eq, text_eq_sound, lookup, lookup-insert}
use webox.Errors.{ok, ok-injective}
use webox.Presets.{Preset}
use webox.Presets.Order.{In, sort_by, In-sort_by}
use webox.Presets.Validator.{Checks}
use webox.Presets.Load.{
  Entry, Source, LoadResult, Loading, file_of, load_entry, load_entries, nothing_loaded, id_less,
  load_dir,
}
use webox.Presets.Load.Files.{
  IsNew, AreDistinct, In-append, Loads, Loads-unique, Step, skipped, failed, duplicate, kept,
  load_entry-Step,
}

module _ (env : Checks) (src : Source) where
  -- Every file that an id is registered with is that of the id, and none of those to come.
  Known : Loading → List Entry → Type 0
  Known l es = (id f : Text) → lookup id l.by_id ≡ some f → (f ≡ file_of id) × IsNew f es

  -- A file that was not met before, and loads to the preset.
  abbrev Among : List Entry → Preset → Type 0
  Among es p = (e : Entry) × In e es × Loads env src e p

  abbrev Grown : Entry → Loading → Loading → Type 0
  Grown e l m = (p : Preset) → In p m.result.presets ↔ (In p l.result.presets ⊎ Loads env src e p)

  step-Grown :
      (e : Entry) (l m : Loading) (es : List Entry)
      → Known l (e ∷ es)
      → Step env src e l m
      → Grown e l m
  unfolding Known
  step-Grown e l m es known (skipped s) p =
      (λ h. inl h, λ h. elim h [ inl k ↦ k | inr loads ↦ absurd (cc (s, loads.0)) ])
  step-Grown e l m es known (failed x never) p =
      (λ h. inl h, λ h. elim h [ inl k ↦ k | inr loads ↦ absurd (never p loads) ])
  step-Grown e l m es known (duplicate q f loads found) p =
      let (file, new) = known q.id f found in absurd (new.0 (loads.1.3 ∙ sym file))
  step-Grown e l m es known (kept q loads none_yet) p =
      let (there, back) = In-append p l.result.presets (q ∷ []) in
      (
        λ h. elim (there h) [
          | inl k ↦ inl k
          | inr (inl same) ↦ inr (subst (Loads env src e) same loads)
          | inr (inr empty) ↦ absurd empty
        ],
        λ h. elim h [
          | inl k ↦ back (inl k)
          | inr mine ↦ back (inr (inl (Loads-unique env src e q p loads mine)))
        ],
      )

  step-Known :
      (e : Entry) (l m : Loading) (es : List Entry)
      → IsNew e.name es
      → Known l (e ∷ es)
      → Step env src e l m
      → Known m es
  unfolding Known
  step-Known e l m es new known (skipped s) id f h =
      let (file, fresh) = known id f h in (file, fresh.1)
  step-Known e l m es new known (failed x never) id f h =
      let (file, fresh) = known id f h in (file, fresh.1)
  step-Known e l m es new known (duplicate q g loads found) id f h =
      let (file, fresh) = known id f h in (file, fresh.1)
  step-Known e l m es new known (kept q loads none_yet) id f h =
      elim (Bool-cases (text_eq q.id id)) [
        | inl y ↦
            (let found : some e.name ≡ some f =
                sym (rw y at (lookup-insert q.id id e.name l.by_id)) ∙ h in
              let mine : e.name ≡ f = cc found in
              (
                sym mine ∙ loads.1.3 ∙ ap file_of (text_eq_sound q.id id y),
                subst (λ n. IsNew n es) mine new,
              ))
        | inr n ↦
            (let old : lookup id l.by_id ≡ some f =
                sym (rw n at (lookup-insert q.id id e.name l.by_id)) ∙ h in
              let (file, fresh) = known id f old in (file, fresh.1))
      ]

  load_entries_iff :
      (es : List Entry) (l : Loading) (p : Preset)
      → AreDistinct es
      → Known l es
      → In p (load_entries env src es l).result.presets ↔ (In p l.result.presets ⊎ Among es p)
  unfolding load_entries
  load_entries_iff [] l p distinct known =
      (λ h. inl h, λ h. elim h [ inl k ↦ k | inr a ↦ absurd a.1 ])
  load_entries_iff (e ∷ es) l p distinct known =
      let m = load_entry env src e l in
      let step = load_entry-Step env src e l in
      let (out, into) = step-Grown e l m es known step p in
      let (there, back) =
        load_entries_iff es m p distinct.1 (step-Known e l m es distinct.0 known step) in
      (
        λ h. elim (there h) [
          | inr a ↦ inr (a.0, inr a.1, a.2)
          | inl k ↦ elim (out k) [ inl j ↦ inl j | inr loads ↦ inr (e, inl refl, loads) ]
        ],
        λ h. elim h [
          | inl j ↦ back (inl (into (inl j)))
          | inr (d, inl same, loads) ↦
              back (inl (into (inr (subst (λ z. Loads env src z p) (sym same) loads))))
          | inr (d, inr k, loads) ↦ back (inr (d, k, loads))
        ],
      )

  opened :
      (entries : List Entry)
      → src.entries ≡ ok entries
      → load_dir env src
        ≡ ok (record (load_entries env src entries nothing_loaded).result {
          presets = sort_by id_less (load_entries env src entries nothing_loaded).result.presets;
        })
  unfolding load_dir
  opened entries read = rw (load_dir, read) refl

  -- In a directory in which no two files have one name, the presets that loadDir gives are exactly
  -- those of the files that are to be loaded, can be read, are parsed, and are named after the id
  -- of their preset. So the error for a duplicate id is never recorded.
  pub load_dir_iff :
      (entries : List Entry) (res : LoadResult) (p : Preset)
      → AreDistinct entries
      → src.entries ≡ ok entries
      → load_dir env src ≡ ok res
      → In p res.presets ↔ ((e : Entry) × In e entries × Loads env src e p)
  unfolding load_dir Known lookup
  load_dir_iff entries res p distinct read loaded =
      let all = load_entries env src entries nothing_loaded in
      let same : sort_by id_less all.result.presets ≡ res.presets =
        ap (λ r. r.presets) (ok-injective (sym (opened entries read) ∙ loaded)) in
      let (there, back) = In-sort_by id_less p all.result.presets in
      let (out, into) =
        load_entries_iff entries nothing_loaded p distinct (λ id f h. absurd (cc h)) in
      (
        λ h. elim (out (there (subst (In p) (sym same) h))) [
          | inl none_yet ↦ absurd none_yet
          | inr a ↦ a
        ],
        λ a. subst (In p) same (back (into (inr a))),
      )
