-- ===== src/Presets/Load.antt =====
-- loadDir of presets/loader.go, over a directory that package fs reads.
pub mod Files
pub mod Loaded
use webox.Prelude.{Bool, true, false, List, [], ◌∷◌, ◌++◌, Option, none, some, if◌then◌else◌, neg}
use webox.Prelude.Text.{Text, codes, text_eq, has_prefix, lookup, insert}
use webox.Errors.{Error, sentinel, wrap, invalid_preset, duplicate_id, Result, ok, err}
use webox.Presets.{Preset}
use webox.Presets.Order.{sort_by, text_lt}
use webox.Presets.Validator
use webox.Presets.Validator.{Checks}

pub record Entry : Type 0 where
  pub name : Text
  pub is_dir : Bool

-- fs.ReadDir and fs.ReadFile in one directory.
pub record Source : Type 0 where
  pub entries : Result (List Entry)
  pub read_file : Text → Result Text

pub record LoadResult : Type 0 where
  pub presets : List Preset
  pub errors : List (Text × Error)

-- strings.HasSuffix
has_suffix : Text → Text → Bool
unfolding text_eq
has_suffix [] suffix = text_eq [] suffix
has_suffix (c ∷ s) suffix = if text_eq (c ∷ s) suffix then true else has_suffix s suffix

unfoldable pub should_load_entry : Entry → Bool
unfolding has_suffix has_prefix
should_load_entry e =
    if e.is_dir
    then false
    else if text_eq e.name (codes "schema.json")
    then false
    else if has_prefix e.name (codes "_")
    then false
    else has_suffix e.name (codes ".json")

-- The variables of the loop: the result so far, and the file of each id.
pub record Loading : Type 0 where
  pub result : LoadResult
  pub by_id : List (Text × Text)

abbrev pub fail : Text → Error → Loading → Loading
fail name e l = record l { result = record l.result { errors = insert name e l.result.errors } }

abbrev pub file_of : Text → Text
file_of id = id ++ codes ".json"

abbrev pub keep : Text → Preset → Loading → Loading
keep name p l = record {
  result = record l.result { presets = l.result.presets ++ p ∷ [] };
  by_id = insert p.id name l.by_id;
}

module _ (env : Checks) (src : Source) where
  -- A preset that was parsed.
  place_preset : Text → Preset → Loading → Loading
  unfolding lookup insert text_eq
  place_preset name p l =
      if neg (text_eq name (file_of p.id))
      then fail name (wrap (sentinel invalid_preset)) l
      else elim (lookup p.id l.by_id) [
        | some existing ↦ fail name (wrap (sentinel duplicate_id)) l
        | none ↦ keep name p l
      ]

  -- A file that was read.
  load_raw_preset : Text → Text → Loading → Loading
  unfolding place_preset insert Validator.parse
  load_raw_preset name raw l = elim (Validator.parse env raw) [
    | err e ↦ fail name e l
    | ok p ↦ place_preset name p l
  ]

  load_file : Text → Loading → Loading
  unfolding load_raw_preset insert
  load_file name l = elim (src.read_file name) [
    | err e ↦ fail name (wrap e) l
    | ok raw ↦ load_raw_preset name raw l
  ]

  unfoldable pub load_entry : Entry → Loading → Loading
  unfolding load_file should_load_entry
  load_entry e l = if neg (should_load_entry e) then l else load_file e.name l

  -- The loop over the entries.
  unfoldable pub load_entries : List Entry → Loading → Loading
  unfolding load_entry
  load_entries [] l = l
  load_entries (e ∷ es) l = load_entries es (load_entry e l)

abbrev pub nothing_loaded : Loading
nothing_loaded = record { result = record { presets = []; errors = [] }; by_id = [] }

abbrev pub id_less : Preset → Preset → Bool
id_less p q = text_lt p.id q.id

unfoldable pub load_dir : Checks → Source → Result LoadResult
unfolding load_entries sort_by text_lt
load_dir env src = elim src.entries [
  | err e ↦ err (wrap e)
  | ok entries ↦
      (let res = (load_entries env src entries nothing_loaded).result in
        ok (record res { presets = sort_by id_less res.presets }))
]
