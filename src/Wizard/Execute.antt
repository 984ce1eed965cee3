-- ===== src/Wizard/Execute.antt =====
-- wizard/execute.go: provisioning at a panel, with a cleanup step pushed for each thing made.
pub mod Accounts
pub mod RoundTrip
pub mod Checks
use webox.Prelude.{
  ℕ, ◌≡◌, refl, Bool, true, false, ◌||◌, List, [], ◌∷◌, ◌++◌, Option, none, some, if◌then◌else◌,
}
use webox.Prelude.Text.{Text, codes, text_eq, is_empty}
use webox.Errors.{
  Error, Result, ok, err, sentinel, wrap, join, is, invalid_plan, preflight_nil_status,
  preflight_ssh_disconnected, cli_not_found, subdomain_exists, dns_not_resolving,
  rate_limit_lets_encrypt, db_name_taken, node_version_unsupported,
}
use webox.Providers.{HostingProvider, ProviderStatus, Subdomain}
use webox.Providers.Registry.{Validators, plan_validators_for}
use webox.Wizard.Step.{CleanupStep, ResourceKind, Params, subdomain, ssl, database}
use webox.Wizard.Stack.{Env, Stack, push}
use webox.Wizard.Plan.{ProvisionPlan, validate_plan}

pub record ProvisionStatus : Type 0 where
  pub step : Text
  pub ok : Bool
  pub err : Option Error

abbrev not_run : ProvisionStatus
not_run = record { step = []; ok = false; err = none }

abbrev succeeded : Text → ProvisionStatus
succeeded step = record { step = step; ok = true; err = none }

abbrev broken : Text → Error → ProvisionStatus
broken step e = record { step = step; ok = false; err = some e }

-- `credentials` are the database user and password.
pub record ProvisionReport : Type 0 where
  pub subdomain : ProvisionStatus
  pub ssl : ProvisionStatus
  pub database : ProvisionStatus
  pub credentials : Option (Text × Text)

abbrev pub empty_report : ProvisionReport
empty_report = record { subdomain = not_run; ssl = not_run; database = not_run; credentials = none }

-- The values of ExecutionFailedError.FailedStep.
pub data FailedStep : Type 0 where
  at_subdomain at_subdomain_cleanup at_ssl at_ssl_cleanup at_database at_database_cleanup :
      FailedStep

-- ExecutionFailedError, whose Unwrap is the error; its report is the one that is returned.
pub record ExecutionFailedError : Type 0 where
  pub failed_step : FailedStep
  pub err : Error

unfoldable pub has_domain : Text → List Subdomain → Bool
has_domain domain [] = false
has_domain domain (s ∷ subs) = text_eq s.domain domain || has_domain domain subs

module _ {W : Type 0} where
  -- Preflight: a status and an error, either of which may be nil.
  unfoldable pub preflight :
      Option (HostingProvider W) → W → W × Option ProviderStatus × Option Error
  preflight none w = (w, none, some (wrap (sentinel invalid_plan)))
  preflight (some p) w =
      let (w', status, failed) = p.check_status w in
      elim failed [
        | some e ↦ (w', status, some (wrap e))
        | none ↦ elim status [
          | none ↦ (w', none, some (sentinel preflight_nil_status))
          | some s ↦
              if s.ssh_connected
              then (if s.cli_installed
                  then (w', some s, none)
                  else (w', some s, some (wrap (sentinel cli_not_found))))
              else (w', some s, some (sentinel preflight_ssh_disconnected))
        ]
      ]

  -- CheckSubdomainAvailable
  unfoldable pub check_subdomain_available :
      Option (HostingProvider W) → Text → W → W × Option Error
  check_subdomain_available none domain w = (w, some (wrap (sentinel invalid_plan)))
  check_subdomain_available (some p) domain w =
      if is_empty domain
      then (w, some (wrap (sentinel invalid_plan)))
      else let (w', subs) = p.list_subdomains w in
        elim subs [
          | err e ↦ (w', some (wrap e))
          | ok l ↦ (w', (if has_domain domain l then some (sentinel subdomain_exists) else none))
        ]

-- How far an execution has come.
pub record Progress (W : Type 0) : Type 0 where
  pub stack : Stack
  pub world : W
  pub report : ProvisionReport

pub data Stage (W : Type 0) : Type 0 where
  go : Progress W → Stage W
  stop : Progress W → ExecutionFailedError → Stage W

infixl 5 ◌>>=◌
abbrev pub ◌>>=◌ : {W : Type 0} → Stage W → (Progress W → Stage W) → Stage W
go pr >>= f = f pr
stop pr e >>= f = stop pr e

module _ {W : Type 0} (env : Env W) (p : HostingProvider W) (plan : ProvisionPlan) where
  open plan use {domain, node_version, db_kind, db_name}

  abbrev fail_at : FailedStep → Error → Progress W → Stage W
  fail_at step e pr = stop pr (record { failed_step = step; err = e })

  push_cleanup : FailedStep → Text → ResourceKind → Params → Progress W → Stage W
  push_cleanup label name kind params pr =
      let cleanup : CleanupStep = record {
        name = name;
        kind = kind;
        params = params;
        created_at = env.now pr.world;
      } in
      let (s, w, failed) = push env cleanup pr.stack pr.world in
      elim failed [
        | none ↦ go (record pr { stack = s; world = w })
        | some e ↦ fail_at label e (record pr { stack = s; world = w })
      ]

  make_subdomain : Progress W → Stage W
  unfolding push_cleanup
  make_subdomain pr =
      let (w, failed) = p.create_subdomain domain node_version pr.world in
      let r = pr.report in
      elim failed [
        | some e ↦ fail_at at_subdomain e (record pr {
          world = w;
          report = record r { subdomain = broken (codes "subdomain") e };
        })
        | none ↦
            push_cleanup at_subdomain_cleanup (codes "Remove subdomain " ++ domain) subdomain
              ((codes "domain", domain) ∷ [])
              (record pr {
                world = w;
                report = record r { subdomain = succeeded (codes "subdomain") };
              })
      ]

  make_ssl : Progress W → Stage W
  unfolding push_cleanup
  make_ssl pr =
      let (w, failed) = p.setup_ssl domain pr.world in
      let r = pr.report in
      elim failed [
        | some e ↦
            fail_at at_ssl e
              (record pr { world = w; report = record r { ssl = broken (codes "ssl") e } })
        | none ↦
            push_cleanup at_ssl_cleanup (codes "Remove SSL " ++ domain) ssl
              ((codes "domain", domain) ∷ [])
              (record pr { world = w; report = record r { ssl = succeeded (codes "ssl") } })
      ]

  database_label : Text
  database_label = codes "Remove database " ++ (db_name ++ (codes " (" ++ (db_kind ++ codes ")")))

  make_database : Progress W → Stage W
  unfolding push_cleanup database_label
  make_database pr =
      let (w, created) = p.create_database db_kind db_name pr.world in
      let r = pr.report in
      elim created [
        | err e ↦
            fail_at at_database e (record pr {
              world = w;
              report = record r { database = broken (codes "database") e };
            })
        | ok account ↦
            push_cleanup at_database_cleanup database_label database
              ((codes "dbKind", db_kind) ∷ (codes "dbName", db_name) ∷ [])
              (record pr {
                world = w;
                report = record r {
                  database = succeeded (codes "database");
                  credentials = some account;
                };
              })
      ]

  run_stages : Progress W → Stage W
  unfolding make_subdomain make_ssl make_database
  run_stages pr = do
    pr' ← make_subdomain pr
    pr'' ← make_ssl pr'
    if is_empty db_kind || is_empty db_name then go pr'' else make_database pr''

-- What Execute returns: an error before any call of the provider, or the last stage, whose
-- progress holds the report.
pub data Executed (W : Type 0) : Type 0 where
  refused : Error → Executed W
  ran : Stage W → Executed W

-- Execute; `validators` is the registry that PlanValidatorsFor reads.
unfoldable pub execute :
    {W : Type 0}
    → Env W
    → Validators
    → Option (HostingProvider W)
    → ProvisionPlan
    → Option Stack
    → W
    → Executed W
unfolding run_stages
execute env validators none plan stack w = refused (wrap (sentinel invalid_plan))
execute env validators (some p) plan none w = refused (wrap (sentinel invalid_plan))
execute env validators (some p) plan (some s) w = elim (plan_validators_for p.name validators) [
  | err e ↦ refused (join (sentinel invalid_plan) e)
  | ok v ↦ elim (validate_plan plan v) [
    | some e ↦ refused e
    | none ↦ ran (run_stages env p plan (record { stack = s; world = w; report = empty_report }))
  ]
]

-- IsRecoverable
unfoldable pub is_recoverable : Option Error → Bool
is_recoverable none = false
is_recoverable (some e) =
    is e subdomain_exists
    || is e dns_not_resolving
    || is e rate_limit_lets_encrypt
    || is e db_name_taken
    || is e node_version_unsupported
