-- ===== src/Presets/Validator.antt =====
-- presets/validator.go. Errors carry no paths here, so the members of an object are walked in the
-- order of the document, where the source sorts them.
use webox.Prelude.{Bool, Option, none, some, if◌then◌else◌, neg, List}
use webox.Prelude.Text.{Text}
use webox.Errors.{
  Error, sentinel, wrap, join, first_error, Result, ok, err, preset_invalid_json,
  preset_schema_violation, secret_in_preset, invalid_preset,
}
use webox.Config.Json.{
  Json, null, bool, number, string, array, object, Items, no_items, item, Members, no_members,
  member,
}
use webox.Config.Schema.{matches_any}
use webox.Presets.{Preset, status_valid}

-- encoding/json's two decodings, the compiled schema or its error, and the patterns of secrets.
pub record Checks : Type 0 where
  pub decode : Text → Result Json
  pub schema_err : Option Error
  pub conforms : Json → Bool
  pub secret_patterns : List (Text → Bool)
  pub decode_preset : Text → Result Preset

module _ (env : Checks) where
  -- walkStrings
  unfoldable mutual
    pub scan_strings : Json → Option Error
    scan_strings null = none
    scan_strings (bool b) = none
    scan_strings (number n) = none
    scan_strings (string s) =
        if matches_any env.secret_patterns s then some (wrap (sentinel secret_in_preset)) else none
    scan_strings (array is) = scan_items is
    scan_strings (object ms) = scan_members ms

    pub scan_items : Items → Option Error
    scan_items no_items = none
    scan_items (item j is) = first_error (scan_strings j) (scan_items is)

    pub scan_members : Members → Option Error
    scan_members no_members = none
    scan_members (member n j ms) = first_error (scan_strings j) (scan_members ms)

  check_preset : Json → Option Error
  unfolding scan_strings
  check_preset doc = elim env.schema_err [
    | some e ↦ some e
    | none ↦
        if env.conforms doc
        then scan_strings doc
        else some (wrap (sentinel preset_schema_violation))
  ]

  unfoldable pub validate_raw : Text → Option Error
  unfolding check_preset
  validate_raw raw = elim (env.decode raw) [
    | err e ↦ some (join (sentinel preset_invalid_json) e)
    | ok doc ↦ check_preset doc
  ]

  parse_checked : Text → Result Preset
  unfolding status_valid
  parse_checked raw = elim (env.decode_preset raw) [
    | err e ↦ err (join (sentinel invalid_preset) e)
    | ok p ↦
        if neg (status_valid p.status) then err (wrap (sentinel preset_schema_violation)) else ok p
  ]

  unfoldable pub parse : Text → Result Preset
  unfolding validate_raw parse_checked
  parse raw = elim (validate_raw raw) [ some e ↦ err e | none ↦ parse_checked raw ]
