-- ===== src/Providers/Registry.antt =====
-- providers/registry.go and providers/validators.go: the two registries, each a map that a mutex
-- guards for the whole of every call, and the checks of a configuration.
pub mod Laws
pub mod Config
pub mod Validators
mod Tests
use webox.Prelude.{
  ℕ, Bool, true, false, ◌&&◌, ◌||◌, ◌==◌, List, [], ◌∷◌, Option, none, some, if◌then◌else◌, neg,
  ltb, leb, length, map,
}
use webox.Prelude.Int.{ℤ, pos, ltb_ℤ}
use webox.Prelude.Text.{Text, is_empty, trim_space, lookup, insert, erase, sort_texts}
use webox.Errors.{
  Error, Result, ok, err, sentinel, wrap, invalid_provider_config, unknown_provider,
  provider_already_registered, unknown_validator, invalid_validator_set,
}
use webox.Providers.{PlanValidators, is_complete}

pub record ProviderConfig : Type 0 where
  pub type : Text
  pub alias : Text
  pub host : Text
  pub port : ℤ
  pub user : Text
  pub properties : Option (List (Text × Text))  -- a map, or nil

abbrev pub default_ssh_port : ℕ
default_ssh_port = 22

-- `^[a-z0-9-]{1,32}$`
is_alias_code : ℕ → Bool
is_alias_code c = (leb b'a' c && leb c b'z') || (leb b'0' c && leb c b'9') || c == b'-'

all_codes : (ℕ → Bool) → Text → Bool
all_codes p [] = true
all_codes p (c ∷ s) = p c && all_codes p s

unfoldable pub matches_alias : Text → Bool
unfolding is_alias_code all_codes
matches_alias s = ltb 0 (length s) && leb (length s) 32 && all_codes is_alias_code s

abbrev invalid {ℓ} : {A : Type ℓ} → Result A
invalid = err (wrap (sentinel invalid_provider_config))

abbrev or_default_port : ℤ → ℤ
or_default_port (pos n) = if ltb 0 n then pos n else pos default_ssh_port
or_default_port port = port

abbrev or_empty : Option (List (Text × Text)) → Option (List (Text × Text))
or_empty none = some []
or_empty (some m) = some m

-- The assignments of validateConfig: trimmed fields, the default port, a map that is not nil.
unfoldable pub normalise : ProviderConfig → ProviderConfig
normalise cfg = record cfg {
  alias = trim_space cfg.alias;
  host = trim_space cfg.host;
  user = trim_space cfg.user;
  port = or_default_port cfg.port;
  properties = or_empty cfg.properties;
}

-- validateConfig
unfoldable pub validate_config : ProviderConfig → Result ProviderConfig
validate_config cfg =
    let n = normalise cfg in
    if is_empty n.alias
    then invalid
    else if neg (matches_alias n.alias)
    then invalid
    else if is_empty n.host
    then invalid
    else if is_empty n.user
    then invalid
    else if ltb_ℤ n.port (pos 1)
    then invalid
    else if ltb_ℤ (pos 65535) n.port
    then invalid
    else ok n

-- `P` is the type of adapters; a Factory may fail.
abbrev pub Factory : Type 0 → Type 0
Factory P = ProviderConfig → Result P

abbrev pub Registry : Type 0 → Type 0
Registry P = List (Text × Factory P)

module _ {P : Type 0} where
  -- Register; a factory may be nil.
  unfoldable pub register : Text → Option (Factory P) → Registry P → Registry P × Option Error
  register provider_type factory m =
      let t = trim_space provider_type in
      if is_empty t then (m, some (wrap (sentinel invalid_provider_config))) else elim factory [
        | none ↦ (m, some (wrap (sentinel invalid_provider_config)))
        | some f ↦ elim (lookup t m) [
          | some g ↦ (m, some (wrap (sentinel provider_already_registered)))
          | none ↦ (insert t f m, none)
        ]
      ]

  -- Unregister
  unfoldable pub unregister : Text → Registry P → Registry P × Bool
  unregister provider_type m = elim (lookup provider_type m) [
    | none ↦ (m, false)
    | some f ↦ (erase provider_type m, true)
  ]

  -- Names
  unfoldable pub names : Registry P → List Text
  names m = sort_texts (map (λ p. p.0) m)

  build : Factory P → Result ProviderConfig → Result P
  build factory (err e) = err e
  build factory (ok cfg) = elim (factory cfg) [ ok p ↦ ok p | err e ↦ err (wrap e) ]

  -- New
  unfoldable pub new : ProviderConfig → Registry P → Result P
  unfolding build
  new cfg m =
      let t = trim_space cfg.type in
      if is_empty t then invalid else elim (lookup t m) [
        | none ↦ err (wrap (sentinel unknown_provider))
        | some factory ↦ build factory (validate_config (record cfg { type = t }))
      ]

abbrev pub Validators : Type 0
Validators = List (Text × PlanValidators)

-- RegisterPlanValidators
unfoldable pub register_plan_validators :
    Text → PlanValidators → Validators → Validators × Option Error
register_plan_validators provider_type set m =
    let t = trim_space provider_type in
    if is_empty t
    then (m, some (wrap (sentinel invalid_provider_config)))
    else if neg (is_complete set)
    then (m, some (wrap (sentinel invalid_validator_set)))
    else elim (lookup t m) [
      | some v ↦ (m, some (wrap (sentinel provider_already_registered)))
      | none ↦ (insert t set m, none)
    ]

-- UnregisterPlanValidators
unfoldable pub unregister_plan_validators : Text → Validators → Validators × Bool
unregister_plan_validators provider_type m = elim (lookup provider_type m) [
  | none ↦ (m, false)
  | some v ↦ (erase provider_type m, true)
]

-- PlanValidatorsFor
unfoldable pub plan_validators_for : Text → Validators → Result PlanValidators
plan_validators_for provider_type m =
    let t = trim_space provider_type in
    if is_empty t
    then invalid
    else elim (lookup t m) [ none ↦ err (wrap (sentinel unknown_validator)) | some v ↦ ok v ]
