-- ===== src/Presets/Tests.antt =====
-- A small catalogue.
use webox.Prelude.{◌≡◌, refl, ◌↔◌, true, false, List, [], ◌∷◌, none, if◌then◌else◌}
use webox.Prelude.Int.{pos}
use webox.Prelude.Text.{Text, codes, text_eq, text_eq_differ}
use webox.Errors.{sentinel, wrap, invalid_preset, ok}
use webox.Config.Json.{null}
use webox.Presets.{Preset, status_verified, region, capability_badges}
use webox.Presets.Order.{In}
use webox.Presets.Validator.{Checks}
use webox.Presets.Load.{Entry, Source, LoadResult, load_dir}
use webox.Presets.Load.Files.{Loads, AreDistinct}
use webox.Presets.Registry.{new_registry_from_result, get_preset, by_provider_type, by_region}
use webox.Presets.Catalog.{get_preset-load_dir}
use webox.Presets.Listings.{IsShown, listings_lem}

-- A preset of an id and a status.
abbrev preset : Text → Text → Preset
preset id status = record {
  schema_version = pos 1;
  id = id;
  display_name = id;
  provider_type = codes "cpanel";
  status = status;
  markets = codes "PL" ∷ [];
  panel = record { name = id; api = codes "uapi"; api_port = pos 2083; ssh_required = true };
  capabilities = record {
    node_runtime = codes "passenger";
    restart_method = codes "passenger";
    ssl_provider = codes "autossl";
    database_engines = codes "none" ∷ codes "mysql" ∷ [];
    git_available = false;
    sftp_available = true;
    logs_path_known = false;
    safe_restart = false;
  };
  paths = record {
    deploy_path_template = [];
    log_path_template = [];
    env_path_template = [];
    node_versions_path = [];
  };
  probes = [];
  known_risks = [];
  sources = [];
  verified = record { fixture_dir = []; last_verified_at = []; verified_by = [] };
}

-- Each file holds the id of its preset.
abbrev checks : Checks
checks = record {
  decode = λ raw. ok null;
  schema_err = none;
  conforms = λ doc. true;
  secret_patterns = [];
  decode_preset = λ raw. ok (preset raw status_verified);
}

abbrev files : List Entry
files =
    record { name = codes "b.json"; is_dir = false }
    ∷ record { name = codes "a.json"; is_dir = false }
    ∷ record { name = codes "schema.json"; is_dir = false }
    ∷ record { name = codes "c.json"; is_dir = false }
    ∷ []

abbrev source : Source
source = record {
  entries = ok files;
  read_file = λ name.
      if text_eq name (codes "a.json")
      then ok (codes "a")
      else if text_eq name (codes "b.json")
      then ok (codes "b")
      else ok (codes "zz");
}

abbrev loaded : LoadResult
loaded = record {
  presets = preset (codes "a") status_verified ∷ preset (codes "b") status_verified ∷ [];
  errors = (codes "c.json", wrap (sentinel invalid_preset)) ∷ [];
}

is_loaded : load_dir checks source ≡ ok loaded
unfolding load_dir
is_loaded = refl

distinct : AreDistinct files
unfolding text_eq
distinct = (
  (text_eq_differ _ _ refl, (text_eq_differ _ _ refl, (text_eq_differ _ _ refl, tt))),
  (
    (text_eq_differ _ _ refl, (text_eq_differ _ _ refl, tt)),
    ((text_eq_differ _ _ refl, tt), (tt, tt)),
  ),
)

abbrev preset_a : Preset
preset_a = preset (codes "a") status_verified

get_preset-load_dir_example :
    (get_preset (new_registry_from_result loaded) (codes "a") ≡ ok preset_a)
    ↔ ((preset_a.id ≡ codes "a") × ((e : Entry) × In e files × Loads checks source e preset_a))
get_preset-load_dir_example =
    get_preset-load_dir checks source files loaded (codes "a") preset_a distinct refl is_loaded

found : get_preset (new_registry_from_result loaded) (codes "a") ≡ ok preset_a
unfolding get_preset new_registry_from_result text_eq
found = refl

badges :
    capability_badges preset_a
    ≡ codes "SSH" ∷ codes "API" ∷ codes "Node" ∷ codes "SSL" ∷ codes "DB" ∷ []
unfolding capability_badges
badges = refl

listings_lem_example :
    (In preset_a (by_provider_type (new_registry_from_result loaded) (codes "cpanel")) ↔ (
      In preset_a (new_registry_from_result loaded).presets
      × (preset_a.provider_type ≡ codes "cpanel")))
    × (In preset_a (by_region (new_registry_from_result loaded) (codes "cpanel")) ↔ (
        In preset_a (new_registry_from_result loaded).presets × (region preset_a ≡ codes "cpanel")))
    × IsShown (by_provider_type (new_registry_from_result loaded) (codes "cpanel"))
    × IsShown (by_region (new_registry_from_result loaded) (codes "cpanel"))
listings_lem_example = listings_lem (new_registry_from_result loaded) (codes "cpanel") preset_a
