-- ===== src/Wizard/Runner/Calls.antt =====
-- A valid step always reaches the panel or GitHub, with all its identifiers.
use webox.Prelude.{◌≡◌, refl, true, false, Option, some, arith, Option-cases, inl, inr}
use webox.Prelude.Int.{ℤ}
use webox.Prelude.Text.{Text, codes, is_empty}
use webox.Prelude.Decimal.{parse_int64}
use webox.Errors.{Error}
use webox.Wizard.Step.{
  CleanupStep, ResourceKind, Params, subdomain, ssl, database, github_repo, github_deploy_key,
  github_actions_secret, github_workflow_file, other, param, IsValid, is_supported,
  validate_step-none, lacks_param, bad_key_id,
}
use webox.Providers.{HostingProvider}
use webox.Wizard.Runner.{GitHubCleanupRunner, make_step_runner_with_github, run_kind}

-- A call of one of the two interfaces.
pub data RemoveCall : Type 0 where
  of_subdomain of_ssl : Text → RemoveCall
  of_database of_repo : Text → Text → RemoveCall
  of_deploy_key : Text → Text → ℤ → RemoveCall
  of_secret : Text → Text → Text → RemoveCall
  of_workflow : Text → Text → Text → Text → RemoveCall

abbrev Given : Text → Type 0
Given t = is_empty t ≡ false

-- No identifier of the call is empty.
abbrev pub IsGiven : RemoveCall → Type 0
IsGiven (of_subdomain d) = Given d
IsGiven (of_ssl d) = Given d
IsGiven (of_database k n) = Given k × Given n
IsGiven (of_repo o r) = Given o × Given r
IsGiven (of_deploy_key o r id) = Given o × Given r
IsGiven (of_secret o r n) = Given o × Given r × Given n
IsGiven (of_workflow o r p b) = Given o × Given r × Given p × Given b

module _ {W : Type 0} (p : HostingProvider W) (g : GitHubCleanupRunner W) where
  pub perform : RemoveCall → W → W × Option Error
  perform (of_subdomain d) = p.remove_subdomain d
  perform (of_ssl d) = p.remove_ssl d
  perform (of_database k n) = p.remove_database k n
  perform (of_repo o r) = g.remove_github_repo o r
  perform (of_deploy_key o r id) = g.remove_github_deploy_key o r id
  perform (of_secret o r n) = g.remove_github_actions_secret o r n
  perform (of_workflow o r f b) = g.remove_github_workflow_file o r f b

-- The call that the documentation of each kind names, from its parameters.
abbrev pub Names : ResourceKind → Params → RemoveCall → Type 0
Names subdomain m (of_subdomain d) = d ≡ param m (codes "domain")
Names ssl m (of_ssl d) = d ≡ param m (codes "domain")
Names database m (of_database k n) = (k ≡ param m (codes "dbKind")) × (n ≡ param m (codes "dbName"))
Names github_repo m (of_repo o r) = (o ≡ param m (codes "owner")) × (r ≡ param m (codes "repo"))
Names github_deploy_key m (of_deploy_key o r id) =
    (o ≡ param m (codes "owner"))
    × (r ≡ param m (codes "repo"))
    × (parse_int64 (param m (codes "keyID")) ≡ some id)
Names github_actions_secret m (of_secret o r n) =
    (o ≡ param m (codes "owner")) × (r ≡ param m (codes "repo")) × (n ≡ param m (codes "name"))
Names github_workflow_file m (of_workflow o r f b) =
    (o ≡ param m (codes "owner"))
    × (r ≡ param m (codes "repo"))
    × (f ≡ param m (codes "path"))
    × (b ≡ param m (codes "branch"))
Names k m c = ⊥

module _ {W : Type 0} (p : HostingProvider W) (g : GitHubCleanupRunner W) (step : CleanupStep) where
  abbrev Reaches : ResourceKind → Type 0
  Reaches k =
      (c : RemoveCall) × Names k step.params c
      × IsGiven c
      × ((w : W) → run_kind (some p) (some g) k step w ≡ perform p g c w)

  reaches :
      (k : ResourceKind)
      → is_supported k ≡ true
      → lacks_param k step.params ≡ false
      → bad_key_id k step.params ≡ false
      → Reaches k
  unfolding run_kind perform lacks_param bad_key_id
  reaches subdomain s l b = (of_subdomain _, refl, l, λ w. refl)
  reaches ssl s l b = (of_ssl _, refl, l, λ w. refl)
  reaches database s l b = (of_database _ _, (refl, refl), ground arith, λ w. refl)
  reaches github_repo s l b = (of_repo _ _, (refl, refl), ground arith, λ w. refl)
  reaches github_deploy_key s l b =
      elim (Option-cases (parse_int64 (param step.params (codes "keyID")))) [
        | inl e ↦ absurd (cc (b, e))
        | inr (id, e) ↦ (of_deploy_key _ _ id, (refl, refl, e), ground arith, λ w. rw e)
      ]
  reaches github_actions_secret s l b =
      (of_secret _ _ _, (refl, refl, refl), ground arith, λ w. refl)
  reaches github_workflow_file s l b =
      (of_workflow _ _ _ _, (refl, refl, refl, refl), ground arith, λ w. refl)
  reaches (other k) s l b = cc

  -- For a valid step the runner makes exactly one call, that of the step's kind with the
  -- identifiers from its parameters, none of them empty; it adds no failure of its own.
  pub make_step_runner-Reaches :
      IsValid step
      → (c : RemoveCall) × Names step.kind step.params c
        × IsGiven c
        × ((w : W) → make_step_runner_with_github (some p) (some g) step w ≡ perform p g c w)
  unfolding make_step_runner_with_github
  make_step_runner-Reaches v = let (s, l, b) = validate_step-none step v in reaches step.kind s l b
