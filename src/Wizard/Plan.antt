-- ===== src/Wizard/Plan.antt =====
-- wizard/plan.go and ProvisionPlan of wizard/types.go.
pub mod Accepts
use webox.Prelude.{
  ◌≡◌, refl, Bool, true, false, ◌&&◌, ◌||◌, List, [], ◌∷◌, Option, none, some, if◌then◌else◌, neg,
}
use webox.Prelude.Text.{Text, codes, text_eq, is_empty, lookup}
use webox.Errors.{Error, sentinel, plain, wrap, join, invalid_plan}
use webox.Providers.{PlanValidators, is_complete}

pub record ProvisionPlan : Type 0 where
  pub profile_alias : Text
  pub stack : Text
  pub domain : Text
  pub node_version : Text
  pub db_kind : Text
  pub db_name : Text

abbrev pub stack_static : Text
stack_static = codes "static"

abbrev pub stack_vite_react : Text
stack_vite_react = codes "vite-react"

abbrev pub stack_node_express : Text
stack_node_express = codes "node-express"

abbrev pub supported_stacks : List Text
supported_stacks = stack_static ∷ stack_vite_react ∷ stack_node_express ∷ []

-- providers.DatabaseMySQL and providers.DatabasePostgres
abbrev pub supported_db_kinds : List Text
supported_db_kinds = codes "mysql" ∷ codes "postgresql" ∷ []

abbrev default_node_version_for_stack : List (Text × Text)
default_node_version_for_stack =
    (stack_static, codes "22")
    ∷ (stack_vite_react, codes "22")
    ∷ (stack_node_express, codes "22")
    ∷ []

unfoldable pub default_node_version : Text → Text
default_node_version stack = elim (lookup stack default_node_version_for_stack) [
  | some v ↦ v
  | none ↦ []
]

-- The loop of IsValidStack and IsValidDBKind.
unfoldable pub is_listed : List Text → Text → Bool
is_listed [] t = false
is_listed (s ∷ ss) t = text_eq s t || is_listed ss t

unfoldable pub is_valid_stack : Text → Bool
is_valid_stack = is_listed supported_stacks

unfoldable pub is_valid_db_kind : Text → Bool
is_valid_db_kind = is_listed supported_db_kinds

unfoldable pub is_db_required_for_stack : Text → Bool
is_db_required_for_stack stack = text_eq stack stack_node_express

abbrev invalid : Option Error
invalid = some (wrap (sentinel invalid_plan))

-- A call of a validator, which the completeness check has found to be set.
abbrev pub reports : Option (Text → Option Error) → Text → Option Error
reports none t = some plain
reports (some check) t = check t

check_database : ProvisionPlan → PlanValidators → Option Error
check_database plan v =
    if is_empty plan.db_kind && is_empty plan.db_name
    then none
    else if is_empty plan.db_kind || is_empty plan.db_name
    then invalid
    else if neg (is_valid_db_kind plan.db_kind)
    then invalid
    else elim (reports v.validate_db_name plan.db_name) [
      | some e ↦ some (join (sentinel invalid_plan) e)
      | none ↦ none
    ]

check_node_version : ProvisionPlan → PlanValidators → Option Error
unfolding check_database
check_node_version plan v =
    if is_empty plan.node_version
    then invalid
    else elim (reports v.validate_node_version plan.node_version) [
      | some e ↦ some (join (sentinel invalid_plan) e)
      | none ↦ check_database plan v
    ]

-- ValidatePlan; the checks stand in the source's order.
unfoldable pub validate_plan : ProvisionPlan → PlanValidators → Option Error
unfolding check_node_version
validate_plan plan v =
    if neg (is_complete v)
    then invalid
    else if is_empty plan.profile_alias
    then invalid
    else if neg (is_valid_stack plan.stack)
    then invalid
    else elim (reports v.validate_domain plan.domain) [
      | some e ↦ some (join (sentinel invalid_plan) e)
      | none ↦ check_node_version plan v
    ]
