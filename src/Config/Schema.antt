-- ===== src/Config/Schema.antt =====
-- Validate of config/schema.go. Errors carry no paths here, so the members of an object are walked in
-- the order of the document, where the source sorts them.
use webox.Prelude.{Bool, false, ◌||◌, List, [], ◌∷◌, ◌++◌, Option, none, some, if◌then◌else◌}
use webox.Prelude.Text.{Text, codes, text_eq}
use webox.Errors.{
  first_error, Error, sentinel, wrap, join, Result, ok, err, invalid_json, schema_violation,
  secret_in_config, dangling_profile_alias,
}
use webox.Config.Json.{
  Json, null, bool, number, string, array, object, Items, no_items, item, Members, no_members,
  member, find,
}

-- encoding/json's decoding into the tree, the compiled schema or its error, and the patterns of
-- secrets by package regexp.
pub record Checks : Type 0 where
  pub decode : Text → Result Json
  pub schema_err : Option Error
  pub conforms : Json → Bool
  pub secret_patterns : List (Text → Bool)

unfoldable pub matches_any : List (Text → Bool) → Text → Bool
matches_any [] s = false
matches_any (p ∷ ps) s = p s || matches_any ps s

module _ (env : Checks) where
  unfoldable mutual
    pub walk_strings : Json → Option Error
    walk_strings null = none
    walk_strings (bool b) = none
    walk_strings (number n) = none
    walk_strings (string s) =
        if matches_any env.secret_patterns s then some (wrap (sentinel secret_in_config)) else none
    walk_strings (array is) = walk_items is
    walk_strings (object ms) = walk_members ms

    pub walk_items : Items → Option Error
    walk_items no_items = none
    walk_items (item j is) = first_error (walk_strings j) (walk_items is)

    pub walk_members : Members → Option Error
    walk_members no_members = none
    walk_members (member n j ms) = first_error (walk_strings j) (walk_members ms)

-- The string under a name in each object of an array; what is no such object is passed over.
abbrev text_in : Text → Json → List Text
text_in name (object ms) = elim (find name ms) [ some (string s) ↦ s ∷ [] | _ ↦ [] ]
text_in name _ = []

unfoldable pub texts_in : Text → Items → List Text
texts_in name no_items = []
texts_in name (item j is) = text_in name j ++ texts_in name is

unfoldable pub texts_under : Text → Text → Json → List Text
unfolding texts_in
texts_under field name (object ms) = elim (find field ms) [
  | some (array is) ↦ texts_in name is
  | _ ↦ []
]
texts_under field name _ = []

unfoldable pub one_of : List Text → Text → Bool
one_of [] a = false
one_of (b ∷ bs) a = text_eq b a || one_of bs a

unfoldable pub first_dangling : List Text → List Text → Option Error
unfolding one_of
first_dangling aliases [] = none
first_dangling aliases (a ∷ used) =
    let rest = first_dangling aliases used in
    if one_of aliases a then rest else some (wrap (sentinel dangling_profile_alias))

unfoldable pub validate_profile_alias_integrity : Json → Option Error
unfolding first_dangling texts_under
validate_profile_alias_integrity doc =
    first_dangling (texts_under (codes "profiles") (codes "alias") doc)
      (texts_under (codes "projects") (codes "profile_alias") doc)

module _ (env : Checks) where
  unfoldable pub check_document : Json → Option Error
  unfolding walk_strings validate_profile_alias_integrity
  check_document doc = elim env.schema_err [
    | some e ↦ some e
    | none ↦
        if env.conforms doc
        then first_error (walk_strings env doc) (validate_profile_alias_integrity doc)
        else some (wrap (sentinel schema_violation))
  ]

  unfoldable pub validate : Text → Option Error
  unfolding check_document
  validate raw = elim (env.decode raw) [
    | err e ↦ some (join (sentinel invalid_json) e)
    | ok doc ↦ check_document doc
  ]
