-- ===== src/Config/Valid.antt =====
-- Which documents Validate of config/schema.go accepts.
use webox.Prelude.{
  ◌≡◌, refl, ◌↔◌, true, false, List, [], ◌∷◌, ◌++◌, Option, none, some, All, Bool-cases, inl, inr,
}
use webox.Prelude.Text.{Text, codes}
use webox.Errors.{first_error, Error}
use webox.Config.Json.{
  Json, null, bool, number, string, array, object, Items, no_items, item, Members, no_members,
  member, strings, strings_of_items, strings_of_members,
}
use webox.Config.Schema.{
  Checks, matches_any, walk_strings, walk_items, walk_members, texts_under, one_of,
}

first_error_iff : (a b : Option Error) → (first_error a b ≡ none) ↔ ((a ≡ none) × (b ≡ none))
first_error_iff none b = (λ h. (refl, h), λ h. h.1)
first_error_iff (some e) b = (λ h. absurd (cc h), λ h. h.0)

All-append_iff :
    {A : Type 0} (P : A → Type 0) (xs ys : List A) → All P (xs ++ ys) ↔ (All P xs × All P ys)
All-append_iff P [] ys = (λ h. (tt, h), λ h. h.1)
All-append_iff P (x ∷ xs) ys =
    let ih = All-append_iff P xs ys in
    (λ h. ((h.0, (ih.0 h.1).0), (ih.0 h.1).1), λ h. (h.0.0, ih.1 (h.0.1, h.1)))

module _ (env : Checks) where
  -- A text that no pattern of secrets matches.
  abbrev pub Plain : Text → Type 0
  Plain s = matches_any env.secret_patterns s ≡ false

  both :
      (a b : Option Error) (xs ys : List Text)
      → (a ≡ none) ↔ All Plain xs
      → (b ≡ none) ↔ All Plain ys
      → (first_error a b ≡ none) ↔ All Plain (xs ++ ys)
  both a b xs ys h g = (
    λ e. let k = (first_error_iff a b).0 e in (All-append_iff Plain xs ys).1 (h.0 k.0, g.0 k.1),
    λ e. let k = (All-append_iff Plain xs ys).0 e in (first_error_iff a b).1 (h.1 k.0, g.1 k.1),
  )

  mutual
    unfolding walk_strings strings

    walk_strings_iff : (j : Json) → (walk_strings env j ≡ none) ↔ All Plain (strings j)
    walk_strings_iff null = (λ h. tt, λ h. refl)
    walk_strings_iff (bool b) = (λ h. tt, λ h. refl)
    walk_strings_iff (number n) = (λ h. tt, λ h. refl)
    walk_strings_iff (string s) = elim (Bool-cases (matches_any env.secret_patterns s)) [
      | inl q ↦ rw q (λ h. absurd (cc h), λ h. absurd (cc (h.0)))
      | inr q ↦ rw q (λ h. (refl, tt), λ h. refl)
    ]
    walk_strings_iff (array is) = walk_items_iff is
    walk_strings_iff (object ms) = walk_members_iff ms

    walk_items_iff : (is : Items) → (walk_items env is ≡ none) ↔ All Plain (strings_of_items is)
    walk_items_iff no_items = (λ h. tt, λ h. refl)
    walk_items_iff (item j is) =
        both (walk_strings env j) (walk_items env is) (strings j) (strings_of_items is)
          (walk_strings_iff j) (walk_items_iff is)

    walk_members_iff :
        (ms : Members) → (walk_members env ms ≡ none) ↔ All Plain (strings_of_members ms)
    walk_members_iff no_members = (λ h. tt, λ h. refl)
    walk_members_iff (member n j ms) =
        both (walk_strings env j) (walk_members env ms) (strings j) (strings_of_members ms)
          (walk_strings_iff j) (walk_members_iff ms)

-- A document that conforms to the schema, holds no secret, and whose projects name profiles.
pub record IsValid (env : Checks) (doc : Json) : Type 0 where
  pub compiled : env.schema_err ≡ none
  pub conforms : env.conforms doc ≡ true
  pub plain : All (Plain env) (strings doc)
  pub known :
      All
        (λ a. one_of (texts_under (codes "profiles") (codes "alias") doc) a ≡ true)
        (texts_under (codes "projects") (codes "profile_alias") doc)
