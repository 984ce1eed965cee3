-- ===== src/Providers.antt =====
-- Package providers: the contract of a hosting panel, and the validators of a provider.
pub mod Registry
use webox.Prelude.{ℕ, Bool, true, false, ◌&&◌, List, Option, none, some}
use webox.Prelude.Int.{ℤ}
use webox.Prelude.Text.{Text}
use webox.Errors.{Error, Result}

pub record ProviderStatus : Type 0 where
  pub ssh_connected : Bool
  pub cli_installed : Bool
  pub latency_ms : ℤ

pub record Subdomain : Type 0 where
  pub domain : Text
  pub type : Text
  pub node_version : Text

-- HostingProvider, with the methods that the wizard calls. `W` is the world outside.
pub record HostingProvider (W : Type 0) : Type 0 where
  pub name : Text
  pub check_status : W → W × Option ProviderStatus × Option Error
  pub list_subdomains : W → W × Result (List Subdomain)
  pub create_subdomain : Text → Text → W → W × Option Error
  pub setup_ssl : Text → W → W × Option Error
  pub create_database : Text → Text → W → W × Result (Text × Text)
  pub remove_subdomain : Text → W → W × Option Error
  pub remove_ssl : Text → W → W × Option Error
  pub remove_database : Text → Text → W → W × Option Error

-- Each function may be nil; one that is set answers nil for an input that it accepts.
pub record PlanValidators : Type 0 where
  pub validate_domain : Option (Text → Option Error)
  pub validate_node_version : Option (Text → Option Error)
  pub validate_db_name : Option (Text → Option Error)

abbrev is_set {ℓ} : {A : Type ℓ} → Option A → Bool
is_set none = false
is_set (some a) = true

unfoldable pub is_complete : PlanValidators → Bool
is_complete v =
    is_set v.validate_domain && is_set v.validate_node_version && is_set v.validate_db_name
