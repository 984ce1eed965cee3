-- ===== src/Wizard/Step.antt =====
-- wizard/types.go and validateStep of wizard/rollback.go: the records of the rollback stack.
use webox.Prelude.{
  ℕ, ◌≡◌, Bool, true, false, ◌||◌, List, [], ◌∷◌, Option, none, some, arith, if◌then◌else◌, All,
}
use webox.Prelude.Text.{Text, codes, is_empty, lookup}
use webox.Prelude.Decimal.{parse_int64}
use webox.Errors.{Error, sentinel, wrap, invalid_step, secret_in_cleanup}
use webox.Wizard.Secret.{is_secret_shaped}

-- `other` is any string that no constant of the source spells.
pub data ResourceKind : Type 0 where
  subdomain ssl database github_repo github_deploy_key github_actions_secret : ResourceKind
  github_workflow_file : ResourceKind
  other : Text → ResourceKind

abbrev pub Params : Type 0
Params = List (Text × Text)

pub record CleanupStep : Type 0 where
  pub name : Text
  pub kind : ResourceKind
  pub params : Params
  pub created_at : ℕ

-- `params[k]`: the empty string for a missing key.
abbrev or_blank : Option Text → Text
or_blank none = []
or_blank (some v) = v

unfoldable pub param : Params → Text → Text
param m k = or_blank (lookup k m)

abbrev pub is_supported : ResourceKind → Bool
is_supported (other k) = false
is_supported subdomain = true
is_supported _ = true

unfoldable pub has_secret : Params → Bool
has_secret [] = false
has_secret ((k, v) ∷ m) = is_secret_shaped v || has_secret m

-- Some of the parameters that the kind requires is missing.
unfoldable pub lacks_param : ResourceKind → Params → Bool
lacks_param subdomain m = is_empty (param m (codes "domain"))
lacks_param ssl m = is_empty (param m (codes "domain"))
lacks_param database m = is_empty (param m (codes "dbName")) || is_empty (param m (codes "dbKind"))
lacks_param github_repo m = is_empty (param m (codes "owner")) || is_empty (param m (codes "repo"))
lacks_param github_deploy_key m =
    is_empty (param m (codes "owner"))
    || is_empty (param m (codes "repo"))
    || is_empty (param m (codes "keyID"))
lacks_param github_actions_secret m =
    is_empty (param m (codes "owner"))
    || is_empty (param m (codes "repo"))
    || is_empty (param m (codes "name"))
lacks_param github_workflow_file m =
    is_empty (param m (codes "owner"))
    || is_empty (param m (codes "repo"))
    || is_empty (param m (codes "path"))
    || is_empty (param m (codes "branch"))
lacks_param (other k) m = false

abbrev is_none {ℓ} : {A : Type ℓ} → Option A → Bool
is_none none = true
is_none (some a) = false

unfoldable pub bad_key_id : ResourceKind → Params → Bool
bad_key_id github_deploy_key m = is_none (parse_int64 (param m (codes "keyID")))
bad_key_id subdomain m = false
bad_key_id _ m = false

-- validateStep: nil is `none`.
unfoldable pub validate_step : CleanupStep → Option Error
validate_step step =
    if is_empty step.name
    then some (wrap (sentinel invalid_step))
    else if is_supported step.kind
    then (if has_secret step.params
        then some (wrap (sentinel secret_in_cleanup))
        else if lacks_param step.kind step.params
        then some (wrap (sentinel invalid_step))
        else if bad_key_id step.kind step.params
        then some (wrap (sentinel invalid_step))
        else none)
    else some (wrap (sentinel invalid_step))

abbrev pub IsValid : CleanupStep → Type 0
IsValid step = validate_step step ≡ none

no_secret : (m : Params) → has_secret m ≡ false → All (λ p. is_secret_shaped p.1 ≡ false) m
unfolding has_secret
no_secret [] h = tt
no_secret ((k, v) ∷ m) h = (ground arith, no_secret m (ground arith))

-- No parameter of an accepted step is secret-shaped.
pub IsValid-no_secret :
    (step : CleanupStep) → IsValid step → All (λ p. is_secret_shaped p.1 ≡ false) step.params
IsValid-no_secret step v = no_secret step.params (unfold validate_step in ground arith)

-- What the checks of an accepted step found.
pub validate_step-none :
    (step : CleanupStep)
    → IsValid step
    → (is_supported step.kind ≡ true)
      × (lacks_param step.kind step.params ≡ false)
      × (bad_key_id step.kind step.params ≡ false)
validate_step-none step v = unfold validate_step in ground arith
