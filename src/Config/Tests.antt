-- ===== src/Config/Tests.antt =====
-- The theorems about configuration files on small documents.
use webox.Config.Migrate.{schema_version_of}
use webox.Prelude.{◌≡◌, ℕ, refl, sym, ap, true, [], ◌∷◌, ◌++◌, Option, some, none}
use webox.Prelude.Int.{ℤ, pos, negsuc}
use webox.Prelude.Text.{Text, codes, text_eq, has_prefix}
use webox.Errors.{
  Error, ok-injective, plain, wrap, sentinel, dangling_profile_alias, secret_in_config, Result, ok,
  err,
}
use webox.Config.Json.{Json, string, array, object, no_items, item, no_members, member, find}
use webox.Config.Schema.{Checks, validate, matches_any}
use webox.Config.Migrate.{Config, Codec, migrate}
use webox.Config.Store.{Store, ConfigDir, load}
use webox.Config.Backup.{Safe, load-Safe}
use webox.Config.Migrated.{Ends, ReadsHeader, migrate-Ends}

-- A document with one profile, and one project that names `alias`.
abbrev document : Text → Json
document alias = object (
    member (codes "profiles")
      (array (item (object (member (codes "alias") (string (codes "main")) no_members)) no_items))
      (member (codes "projects")
        (array (item (object (member (codes "profile_alias") (string alias) no_members)) no_items))
        no_members))

-- The text is the alias.
abbrev checks : Checks
checks = record {
  decode = λ raw. ok (document raw);
  schema_err = none;
  conforms = λ doc. true;
  secret_patterns = (λ s. has_prefix s (codes "sk-")) ∷ [];
}

accepted : validate checks (codes "main") ≡ none
unfolding validate matches_any has_prefix find text_eq
accepted = refl

dangling : validate checks (codes "other") ≡ some (wrap (sentinel dangling_profile_alias))
unfolding validate matches_any has_prefix find text_eq
dangling = refl

secret : validate checks (codes "sk-1") ≡ some (wrap (sentinel secret_in_config))
unfolding validate matches_any has_prefix
secret = refl

-- An old file is empty, a new one holds its version, and a line end.
abbrev header : Text → Result (Option ℤ)
header [] = ok none
header (c ∷ s) = ok (some (pos c))

-- One configuration is not like another in its version only.
abbrev version_text : ℤ → Result Text
version_text (pos n) = ok (n ∷ [])
version_text (negsuc n) = err plain

abbrev marshal : Config ℕ ℕ ℕ → Result Text
marshal c = version_text c.schema_version

abbrev codec : Codec ℕ ℕ ℕ
codec = record {
  decode_header = header;
  decode_v0 = λ raw. ok (record { language = []; profile = 7; projects = none; settings = none });
  marshal_indent = marshal;
}

abbrev lenient : Checks
lenient = record checks { decode = λ raw. ok (document (codes "main")) }

migrated : migrate lenient codec 2 [] ≡ some (ok (1 ∷ 10 ∷ []))
unfolding migrate validate matches_any has_prefix find text_eq
migrated = refl

header-version : (v : ℤ) (t : Text) → version_text v ≡ ok t → header (t ++ 10 ∷ []) ≡ ok (some v)
header-version (pos n) t h = ap (λ s. header (s ++ 10 ∷ [])) (sym (ok-injective h))
header-version (negsuc n) t h = absurd (cc h)

codec-ReadsHeader : ReadsHeader lenient codec
codec-ReadsHeader c t h = header-version c.schema_version t h

migrate-Ends_example : Ends lenient codec (migrate lenient codec 2 [])
migrate-Ends_example = migrate-Ends lenient codec codec-ReadsHeader []

-- A host on which every operation on files succeeds.
abbrev fine : ℕ → Option Error × ℕ
fine w = (none, w)

abbrev same_world : ℕ → ℕ
same_world w = w

abbrev host : Store (Config ℕ ℕ ℕ) ℕ
host = record {
  decode_config = λ raw. ok (record {
    schema_version = pos 1;
    language = [];
    profiles = [];
    projects = none;
    settings = none;
  });
  ctx_err = fine;
  read_error = fine;
  mkdir_all = fine;
  lock_exclusive = fine;
  unlock = same_world;
  temp_path = fine;
  open_temp = fine;
  write_temp = λ t. fine;
  sync_temp = fine;
  close_temp = same_world;
  remove_temp = same_world;
  rename = fine;
  sync_dir = fine;
  open_backup = fine;
  write_backup = λ t. fine;
  sync_backup = fine;
  close_backup = same_world;
}

abbrev old_dir : ConfigDir ℕ
old_dir = record { file = some []; backups = []; world = 0 }

load_migrates :
    ((load lenient codec host old_dir).1.file ≡ some (1 ∷ 10 ∷ []))
    × ((load lenient codec host old_dir).1.backups ≡ [] ∷ [])
unfolding load schema_version_of migrate validate matches_any has_prefix find text_eq
load_migrates = (refl, refl)

load-Safe_example : Safe lenient codec host old_dir (load lenient codec host old_dir).1
load-Safe_example = load-Safe lenient codec host old_dir
