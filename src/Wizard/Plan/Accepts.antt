-- ===== src/Wizard/Plan/Accepts.antt =====
-- Which plans ValidatePlan accepts, and what it answers for the others.
use webox.Prelude.{◌≡◌, ◌↔◌, ◌⊎◌, true, false, none, some, arith}
use webox.Prelude.Text.{is_empty}
use webox.Errors.{Error, is, invalid_plan}
use webox.Providers.{PlanValidators, is_complete}
use webox.Wizard.Plan.{ProvisionPlan, is_valid_stack, is_valid_db_kind, reports, validate_plan}

-- An optional database: none at all, or a supported kind with an accepted name.
abbrev pub HasDatabase : ProvisionPlan → PlanValidators → Type 0
HasDatabase plan v =
    (is_empty plan.db_kind ≡ true) × (is_empty plan.db_name ≡ true)
    ⊎ (is_empty plan.db_kind ≡ false)
      × (is_empty plan.db_name ≡ false)
      × (is_valid_db_kind plan.db_kind ≡ true)
      × (reports v.validate_db_name plan.db_name ≡ none)

pub record IsAcceptable (plan : ProvisionPlan) (v : PlanValidators) : Type 0 where
  pub complete : is_complete v ≡ true
  pub alias : is_empty plan.profile_alias ≡ false
  pub stack : is_valid_stack plan.stack ≡ true
  pub domain : reports v.validate_domain plan.domain ≡ none
  pub has_node : is_empty plan.node_version ≡ false
  pub node : reports v.validate_node_version plan.node_version ≡ none
  pub database : HasDatabase plan v

-- ValidatePlan answers nil exactly for the acceptable plans.
pub validate_plan_iff :
    (plan : ProvisionPlan) (v : PlanValidators)
    → (validate_plan plan v ≡ none) ↔ IsAcceptable plan v
unfolding validate_plan
validate_plan_iff plan v = (λ h. ground arith, λ a. ground arith)

-- Every error of ValidatePlan is an ErrInvalidPlan.
pub validate_plan-invalid :
    (plan : ProvisionPlan) (v : PlanValidators) (e : Error)
    → validate_plan plan v ≡ some e
    → is e invalid_plan ≡ true
unfolding validate_plan is
validate_plan-invalid plan v e h = ground arith
