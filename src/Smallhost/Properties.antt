-- ===== src/Smallhost/Properties.antt =====
-- providers/smallhost/config.go: the properties of a profile and New.
use webox.Prelude.{
  ◌≡◌, refl, subst, inl, inr, Bool, true, false, ◌||◌, List, [], ◌∷◌, Option, none, some,
  if◌then◌else◌, neg, Bool-cases, arith,
}
use webox.Prelude.Int.{ℤ, pos, ltb_ℤ, ◌≤ℤ◌}
use webox.Prelude.Decimal.{parse_int64}
use webox.Prelude.Text.{Text, codes, text_eq, text_eq_sound, lookup}
use webox.Errors.{sentinel, wrap, invalid_provider_config, Result, ok, err}
use webox.Providers.{PlanValidators}
use webox.Providers.Registry.{ProviderConfig}
use webox.Smallhost.Paths.{validate_domain, validate_node_version, validate_db_name}

pub record Properties : Type 0 where
  pub restart_method : Text
  pub ssh_pool_max : ℤ
  pub legacy_algorithm_compat : Bool

abbrev provider_name : Text
provider_name = codes "smallhost"

abbrev pub restart_method_devil : Text
restart_method_devil = codes "devil"

abbrev invalid {ℓ} : {A : Type ℓ} → Result A
invalid = err (wrap (sentinel invalid_provider_config))

abbrev is_one_of : List Text → Text → Bool
is_one_of [] v = false
is_one_of (t ∷ ts) v = text_eq t v || is_one_of ts v

-- strconv.ParseBool
parse_bool : Text → Option Bool
unfolding text_eq
parse_bool v =
    if is_one_of
      (codes "1" ∷ codes "t" ∷ codes "T" ∷ codes "TRUE" ∷ codes "true" ∷ codes "True" ∷ []) v
    then some true
    else if is_one_of
        (codes "0" ∷ codes "f" ∷ codes "F" ∷ codes "FALSE" ∷ codes "false" ∷ codes "False" ∷ []) v
    then some false
    else none

-- The three keys, each if it is there.
with_restart : Option Text → Properties → Result Properties
unfolding text_eq
with_restart none out = ok out
with_restart (some v) out =
    if neg (text_eq v restart_method_devil) then invalid else ok (record out { restart_method = v })

pool_max : Option ℤ → Properties → Result Properties
pool_max none out = invalid
pool_max (some n) out =
    if ltb_ℤ n (pos 1) || ltb_ℤ (pos 16) n then invalid else ok (record out { ssh_pool_max = n })

with_pool_max : Option Text → Properties → Result Properties
unfolding parse_int64 pool_max
with_pool_max none out = ok out
with_pool_max (some v) out = pool_max (parse_int64 v) out

compat : Option Bool → Properties → Result Properties
compat none out = invalid
compat (some b) out = ok (record out { legacy_algorithm_compat = b })

with_compat : Option Text → Properties → Result Properties
unfolding parse_bool compat
with_compat none out = ok out
with_compat (some v) out = compat (parse_bool v) out

abbrev then_ok : Result Properties → (Properties → Result Properties) → Result Properties
then_ok (err e) f = err e
then_ok (ok out) f = f out

abbrev default_properties : Properties
default_properties = record {
  restart_method = restart_method_devil;
  ssh_pool_max = pos 3;
  legacy_algorithm_compat = false;
}

unfoldable pub parse_properties : List (Text × Text) → Result Properties
unfolding with_restart with_pool_max with_compat lookup
parse_properties raw =
    then_ok
      (then_ok (with_restart (lookup (codes "restart_method") raw) default_properties)
        (with_pool_max (lookup (codes "ssh_pool_max") raw)))
      (with_compat (lookup (codes "ssh_algorithms_legacy_compat") raw))

-- The entries of a map; a nil map has none.
abbrev entries : Option (List (Text × Text)) → List (Text × Text)
entries none = []
entries (some m) = m

-- New, up to the provider that it makes of its two arguments.
unfoldable pub new_properties : ProviderConfig → Result Properties
unfolding parse_properties text_eq
new_properties cfg =
    if neg (text_eq cfg.type provider_name)
    then err (wrap (sentinel invalid_provider_config))
    else parse_properties (entries cfg.properties)

-- What init registers for the plans of the wizard.
unfoldable pub plan_validators : PlanValidators
unfolding validate_domain validate_node_version validate_db_name
plan_validators = record {
  validate_domain = some validate_domain;
  validate_node_version = some validate_node_version;
  validate_db_name = some validate_db_name;
}

-- The properties that the rest of the program relies on.
abbrev pub IsSane : Properties → Type 0
IsSane out =
    (out.restart_method ≡ restart_method_devil)
    × (pos 1 ≤ℤ out.ssh_pool_max)
    × (out.ssh_pool_max ≤ℤ pos 16)

abbrev Sane : Result Properties → Type 0
Sane (err e) = Unit
Sane (ok out) = IsSane out

with_restart-Sane : (o : Option Text) (out : Properties) → IsSane out → Sane (with_restart o out)
unfolding with_restart
with_restart-Sane none out h = h
with_restart-Sane (some v) out h = elim (Bool-cases (text_eq v restart_method_devil)) [
  | inl e ↦ rw (with_restart, e) (text_eq_sound v restart_method_devil e, h.1, h.2)
  | inr n ↦ rw (with_restart, n) tt
]

pool_max-Sane : (o : Option ℤ) (out : Properties) → IsSane out → Sane (pool_max o out)
unfolding pool_max
pool_max-Sane none out h = tt
pool_max-Sane (some n) out h = elim (Bool-cases (ltb_ℤ n (pos 1) || ltb_ℤ (pos 16) n)) [
  | inl e ↦ rw (pool_max, e) tt
  | inr k ↦ rw (pool_max, k) (h.0, ground (arith, k), ground (arith, k))
]

compat-Sane : (o : Option Bool) (out : Properties) → IsSane out → Sane (compat o out)
unfolding compat
compat-Sane none out h = tt
compat-Sane (some b) out h = h

with_pool_max-Sane : (o : Option Text) (out : Properties) → IsSane out → Sane (with_pool_max o out)
unfolding with_pool_max
with_pool_max-Sane none out h = h
with_pool_max-Sane (some v) out h = pool_max-Sane (parse_int64 v) out h

with_compat-Sane : (o : Option Text) (out : Properties) → IsSane out → Sane (with_compat o out)
unfolding with_compat
with_compat-Sane none out h = h
with_compat-Sane (some v) out h = compat-Sane (parse_bool v) out h

then_ok-Sane :
    (r : Result Properties) (f : Properties → Result Properties)
    → Sane r
    → ((out : Properties) → IsSane out → Sane (f out))
    → Sane (then_ok r f)
then_ok-Sane (err e) f h g = tt
then_ok-Sane (ok out) f h g = g out h

parse_properties-Sane : (raw : List (Text × Text)) → Sane (parse_properties raw)
unfolding parse_properties
parse_properties-Sane raw =
    then_ok-Sane _ _
      (then_ok-Sane _ _
        (with_restart-Sane (lookup (codes "restart_method") raw) default_properties
          (refl, ground arith, ground arith))
        (with_pool_max-Sane (lookup (codes "ssh_pool_max") raw)))
      (with_compat-Sane (lookup (codes "ssh_algorithms_legacy_compat") raw))

-- Whatever the properties of the profile, those of a new adapter name the restart method devil and
-- a pool of 1 to 16 connections.
pub new_properties-IsSane :
    (cfg : ProviderConfig) (out : Properties) → new_properties cfg ≡ ok out → IsSane out
unfolding new_properties
new_properties-IsSane cfg out h = elim (Bool-cases (text_eq cfg.type provider_name)) [
  | inr n ↦ absurd (cc (rw (new_properties, n) at h))
  | inl e ↦
      subst Sane (rw (new_properties, e) at h) (parse_properties-Sane (entries cfg.properties))
]
