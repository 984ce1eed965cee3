-- ===== src/Presets/Load/Files.antt =====
-- Which files of a directory are loaded.
use webox.Prelude.{
  ◌≡◌, sym, ap, subst, ◌∙◌, ◌≢◌, ◌⊎◌, inl, inr, ◌↔◌, true, false, List, [], ◌∷◌, ◌++◌, none, some,
  Option-cases, Bool-cases,
}
use webox.Prelude.Text.{Text, text_eq, text_eq_iff, text_eq_sound, lookup}
use webox.Errors.{
  Error, sentinel, wrap, invalid_preset, duplicate_id, ok, Result-cases, ok-injective,
}
use webox.Presets.{Preset}
use webox.Presets.Order.{In}
use webox.Presets.Validator.{Checks, parse}
use webox.Presets.Load.{
  Entry, Source, Loading, should_load_entry, fail, file_of, keep, place_preset, load_raw_preset,
  load_file, load_entry,
}

-- A list of files in which no two have one name.
abbrev pub IsNew : Text → List Entry → Type 0
IsNew n [] = Unit
IsNew n (e ∷ es) = (e.name ≢ n) × IsNew n es

abbrev pub AreDistinct : List Entry → Type 0
AreDistinct [] = Unit
AreDistinct (e ∷ es) = IsNew e.name es × AreDistinct es

IsNew-In : (n : Text) (es : List Entry) (e : Entry) → IsNew n es → In e es → e.name ≢ n
IsNew-In n [] e h m = absurd m
IsNew-In n (x ∷ es) e h (inl q) = subst (λ z. z.name ≢ n) q h.0
IsNew-In n (x ∷ es) e h (inr m) = IsNew-In n es e h.1 m

pub distinct-same :
    (es : List Entry) (d e : Entry) → AreDistinct es → In d es → In e es → d.name ≡ e.name → d ≡ e
distinct-same [] d e h m k same = absurd m
distinct-same (x ∷ es) d e h (inl p) (inl q) same = sym p ∙ q
distinct-same (x ∷ es) d e h (inl p) (inr k) same =
    absurd (IsNew-In x.name es e h.0 k (sym same ∙ ap (λ z. z.name) (sym p)))
distinct-same (x ∷ es) d e h (inr m) (inl q) same =
    absurd (IsNew-In x.name es d h.0 m (same ∙ ap (λ z. z.name) (sym q)))
distinct-same (x ∷ es) d e h (inr m) (inr k) same = distinct-same es d e h.1 m k same

pub In-append : {A : Type 0} (a : A) (xs ys : List A) → In a (xs ++ ys) ↔ (In a xs ⊎ In a ys)
In-append a [] ys = (λ h. inr h, λ h. elim h [ inl m ↦ absurd m | inr m ↦ m ])
In-append a (x ∷ xs) ys =
    let (there, back) = In-append a xs ys in
    (
      λ h. elim h [
        | inl q ↦ inl (inl q)
        | inr m ↦ elim (there m) [ inl k ↦ inl (inr k) | inr k ↦ inr k ]
      ],
      λ h. elim h [
        | inl (inl q) ↦ inl q
        | inl (inr k) ↦ inr (back (inl k))
        | inr k ↦ inr (back (inr k))
      ],
    )

module _ (env : Checks) (src : Source) where
  -- A file that is read and parsed to a preset whose id is the name of the file.
  abbrev pub Loads : Entry → Preset → Type 0
  Loads e p =
      (should_load_entry e ≡ true)
      × ((raw : Text) × (src.read_file e.name ≡ ok raw)
          × (parse env raw ≡ ok p)
          × (e.name ≡ file_of p.id))

  pub Loads-unique : (e : Entry) (p q : Preset) → Loads e p → Loads e q → p ≡ q
  Loads-unique e p q (s, (r, read, parsed, name)) (s', (r', read', parsed', name')) =
      let same : r ≡ r' = ok-injective (sym read ∙ read') in
      ok-injective (sym parsed ∙ ap (parse env) same ∙ parsed')

  pub data Step (e : Entry) (l : Loading) : Loading → Type 0 where
    skipped : should_load_entry e ≡ false → Step e l l
    failed : (x : Error) → ((p : Preset) → Loads e p → ⊥) → Step e l (fail e.name x l)
    duplicate :
        (p : Preset) (f : Text)
        → Loads e p
        → lookup p.id l.by_id ≡ some f
        → Step e l (fail e.name (wrap (sentinel duplicate_id)) l)
    kept : (p : Preset) → Loads e p → lookup p.id l.by_id ≡ none → Step e l (keep e.name p l)

  load_raw_preset-Step :
      (e : Entry) (l : Loading) (raw : Text)
      → should_load_entry e ≡ true
      → src.read_file e.name ≡ ok raw
      → Step e l (load_raw_preset env src e.name raw l)
  unfolding load_raw_preset place_preset
  load_raw_preset-Step e l raw s read = elim (Result-cases (parse env raw)) [
    | inr (x, q) ↦
        rw (load_raw_preset, q)
          (failed x λ p (_, (r, read', parsed, _)).
            let same : raw ≡ r = ok-injective (sym read ∙ read') in absurd (cc (q, same, parsed)))
    | inl (p, q) ↦ elim (Bool-cases (text_eq e.name (file_of p.id))) [
      | inr n ↦
          rw (load_raw_preset, q, place_preset, n)
            (failed (wrap (sentinel invalid_preset)) λ p' (_, (r, read', parsed, name)).
              let same : raw ≡ r = ok-injective (sym read ∙ read') in
              let one : p ≡ p' = ok-injective (sym q ∙ ap (parse env) same ∙ parsed) in
              let yes : text_eq e.name (file_of p.id) ≡ true =
                (text_eq_iff e.name (file_of p.id)).1 (name ∙ ap (λ z. file_of z.id) (sym one)) in
              absurd (cc (n, yes)))
      | inl y ↦
          (let loads : Loads e p = (s, (raw, read, q, text_eq_sound e.name (file_of p.id) y)) in
            elim (Option-cases (lookup p.id l.by_id)) [
              | inl none_yet ↦
                  rw (load_raw_preset, q, place_preset, y, none_yet) (kept p loads none_yet)
              | inr (f, known) ↦
                  rw (load_raw_preset, q, place_preset, y, known) (duplicate p f loads known)
            ])
    ]
  ]

  pub load_entry-Step : (e : Entry) (l : Loading) → Step e l (load_entry env src e l)
  unfolding load_entry load_file
  load_entry-Step e l = elim (Bool-cases (should_load_entry e)) [
    | inr n ↦ rw (load_entry, n) (skipped n)
    | inl s ↦ elim (Result-cases (src.read_file e.name)) [
      | inl (raw, q) ↦ rw (load_entry, s, load_file, q) (load_raw_preset-Step e l raw s q)
      | inr (x, q) ↦
          rw (load_entry, s, load_file, q) (failed (wrap x) λ p h. absurd (cc (q, h.1.1)))
    ]
  ]
