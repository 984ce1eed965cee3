-- ===== src/Presets.antt =====
-- presets/preset.go: a provider preset, its region and its badges.
pub mod Order
pub mod Validator
pub mod Load
pub mod Registry
pub mod Catalog
pub mod Listings
mod Tests
use webox.Prelude.{◌≡◌, Bool, true, false, ◌&&◌, ◌||◌, List, [], ◌∷◌, ◌++◌, if◌then◌else◌, neg}
use webox.Prelude.Int.{ℤ}
use webox.Prelude.Text.{Text, codes, text_eq, is_empty}

-- The loop of Status.Valid, hasDatabase's kin, and a set of texts.
unfoldable pub in_texts : List Text → Text → Bool
unfolding text_eq
in_texts [] t = false
in_texts (s ∷ ss) t = text_eq t s || in_texts ss t

abbrev pub status_verified : Text
status_verified = codes "verified"

abbrev pub status_candidate : Text
status_candidate = codes "candidate"

abbrev pub status_research : Text
status_research = codes "research"

abbrev pub status_community : Text
status_community = codes "community"

abbrev pub status_deprecated : Text
status_deprecated = codes "deprecated"

abbrev pub all_statuses : List Text
all_statuses =
    status_research ∷ status_candidate ∷ status_verified ∷ status_deprecated ∷ status_community ∷ []

unfoldable pub status_valid : Text → Bool
unfolding in_texts
status_valid = in_texts all_statuses

pub record Panel : Type 0 where
  pub name : Text
  pub api : Text
  pub api_port : ℤ
  pub ssh_required : Bool

pub record Capabilities : Type 0 where
  pub node_runtime : Text
  pub restart_method : Text
  pub ssl_provider : Text
  pub database_engines : List Text
  pub git_available : Bool
  pub sftp_available : Bool
  pub logs_path_known : Bool
  pub safe_restart : Bool

pub record Paths : Type 0 where
  pub deploy_path_template : Text
  pub log_path_template : Text
  pub env_path_template : Text
  pub node_versions_path : Text

pub record Verified : Type 0 where
  pub fixture_dir : Text
  pub last_verified_at : Text
  pub verified_by : Text

pub record Preset : Type 0 where
  pub schema_version : ℤ
  pub id : Text
  pub display_name : Text
  pub provider_type : Text
  pub status : Text
  pub markets : List Text
  pub panel : Panel
  pub capabilities : Capabilities
  pub paths : Paths
  pub probes : List Text
  pub known_risks : List Text
  pub sources : List Text
  pub verified : Verified

abbrev pub region_poland : Text
region_poland = codes "Poland"

abbrev pub region_europe : Text
region_europe = codes "Europe"

abbrev pub region_global : Text
region_global = codes "Global"

abbrev pub region_advanced : Text
region_advanced = codes "Advanced"

abbrev european_markets : List Text
european_markets =
    codes "AT"
    ∷ codes "BE"
    ∷ codes "BG"
    ∷ codes "CH"
    ∷ codes "CY"
    ∷ codes "CZ"
    ∷ codes "DE"
    ∷ codes "DK"
    ∷ codes "EE"
    ∷ codes "ES"
    ∷ codes "FI"
    ∷ codes "FR"
    ∷ codes "GR"
    ∷ codes "HR"
    ∷ codes "HU"
    ∷ codes "IE"
    ∷ codes "IT"
    ∷ codes "LT"
    ∷ codes "LU"
    ∷ codes "LV"
    ∷ codes "MT"
    ∷ codes "NL"
    ∷ codes "NO"
    ∷ codes "PT"
    ∷ codes "RO"
    ∷ codes "SE"
    ∷ codes "SI"
    ∷ codes "SK"
    ∷ codes "UA"
    ∷ codes "UK"
    ∷ codes "GB"
    ∷ []

unfoldable pub is_european_market : Text → Bool
unfolding in_texts
is_european_market = in_texts european_markets

unfoldable pub region_of_markets : List Text → Text
unfolding is_european_market text_eq
region_of_markets [] = region_advanced
region_of_markets (first ∷ rest) =
    if text_eq first (codes "PL")
    then region_poland
    else if text_eq first (codes "global")
    then region_global
    else if is_european_market first
    then region_europe
    else region_global

unfoldable pub region : Preset → Text
unfolding region_of_markets
region p = region_of_markets p.markets

unfoldable pub has_database : List Text → Bool
unfolding text_eq
has_database [] = false
has_database (e ∷ es) =
    if neg (is_empty e) && neg (text_eq e (codes "none")) then true else has_database es

abbrev badge_if : Bool → Text → List Text
badge_if b t = if b then t ∷ [] else []

unfoldable pub capability_badges : Preset → List Text
unfolding has_database text_eq
capability_badges p =
    let c = p.capabilities in
    let is_not : Text → Text → Bool = λ t s. neg (text_eq t s) in
    badge_if p.panel.ssh_required (codes "SSH")
    ++ (badge_if (is_not p.panel.api (codes "none") && is_not p.panel.api (codes "ssh_only"))
          (codes "API")
        ++ (badge_if
              (neg (is_empty c.node_runtime)
                && is_not c.node_runtime (codes "static_only")
                && is_not c.node_runtime (codes "unknown"))
              (codes "Node")
            ++ (badge_if (neg (is_empty c.ssl_provider) && is_not c.ssl_provider (codes "none"))
                  (codes "SSL")
                ++ (badge_if (has_database c.database_engines) (codes "DB")
                    ++ (badge_if c.logs_path_known (codes "Logs")
                        ++ (badge_if c.safe_restart (codes "Safe Restart")
                            ++ badge_if (neg (is_empty p.verified.fixture_dir))
                                (codes "Fixtures")))))))
