-- ===== src/Config/Json.antt =====
-- A decoded JSON document, as config/schema.go walks it.
use webox.Prelude.{Bool, List, [], ◌∷◌, ◌++◌, Option, none, some, if◌then◌else◌}
use webox.Prelude.Int.{ℤ}
use webox.Prelude.Text.{Text, text_eq}

mutual
  pub data Json : Type 0 where
    null : Json
    bool : Bool → Json
    number : ℤ → Json
    string : Text → Json
    array : Items → Json
    object : Members → Json

  pub data Items : Type 0 where
    no_items : Items
    item : Json → Items → Items

  pub data Members : Type 0 where
    no_members : Members
    member : Text → Json → Members → Members

unfoldable pub find : Text → Members → Option Json
find name no_members = none
find name (member n j ms) = if text_eq n name then some j else find name ms

-- The texts of all strings of a document.
unfoldable mutual
  pub strings : Json → List Text
  strings null = []
  strings (bool b) = []
  strings (number n) = []
  strings (string s) = s ∷ []
  strings (array is) = strings_of_items is
  strings (object ms) = strings_of_members ms

  pub strings_of_items : Items → List Text
  strings_of_items no_items = []
  strings_of_items (item j is) = strings j ++ strings_of_items is

  pub strings_of_members : Members → List Text
  strings_of_members no_members = []
  strings_of_members (member n j ms) = strings j ++ strings_of_members ms
