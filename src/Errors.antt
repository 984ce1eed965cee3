-- ===== src/Errors.antt =====
-- Go's error values as the program uses them. Message texts are left out: what callers decide by
-- is the chain of wrapped errors, which errors.Is walks.
use webox.Prelude.{
  ◌⊎◌, inl, inr, ◌≡◌, refl, ℕ, Bool, true, false, ◌||◌, List, [], ◌∷◌, Option, none, some, ◌==◌,
}

-- The package-level errors that callers compare with, and those of package context.
pub data Sentinel : Type 0 where
  canceled deadline_exceeded : Sentinel
  invalid_step secret_in_cleanup unsupported_kind invalid_plan : Sentinel
  corrupted_snapshot schema_mismatch preflight_ssh_disconnected preflight_nil_status : Sentinel
  cli_not_found subdomain_exists dns_not_resolving rate_limit_lets_encrypt : Sentinel
  db_name_taken node_version_unsupported : Sentinel
  invalid_provider_config unknown_provider provider_already_registered : Sentinel
  unknown_validator invalid_validator_set : Sentinel
  pool_busy pool_closed reconnect_exhausted : Sentinel
  type_mismatch : Sentinel
  invalid_json migration_failed no_migrator : Sentinel
  log_path_invalid : Sentinel
  run_getter_nil workflow_dispatch_failed : Sentinel
  secret_not_found fallback_locked auth_failed : Sentinel
  corrupted_secrets master_password_too_short : Sentinel
  output_too_large unknown_output_format app_not_node app_not_found : Sentinel
  invalid_domain invalid_user invalid_db_name invalid_node_version : Sentinel
  invalid_preset preset_schema_violation secret_in_preset preset_invalid_json : Sentinel
  preset_not_found duplicate_id : Sentinel
  gh_unavailable repo_exists pat_invalid pat_scope_insufficient rate_limited : Sentinel
  http_validation_failed http_server_error http_unexpected_status : Sentinel
  run_not_found steps_parse_error invalid_repo_ref : Sentinel
  invalid_commit_file_request workflow_file_missing_sha : Sentinel
  schema_violation secret_in_config dangling_profile_alias config_schema_mismatch corrupted_config :
      Sentinel

tag : Sentinel → ℕ
tag canceled = 0
tag deadline_exceeded = 1
tag invalid_step = 2
tag secret_in_cleanup = 3
tag unsupported_kind = 4
tag invalid_plan = 5
tag corrupted_snapshot = 6
tag schema_mismatch = 7
tag preflight_ssh_disconnected = 8
tag preflight_nil_status = 9
tag cli_not_found = 10
tag subdomain_exists = 11
tag dns_not_resolving = 12
tag rate_limit_lets_encrypt = 13
tag db_name_taken = 14
tag node_version_unsupported = 15
tag invalid_provider_config = 16
tag unknown_provider = 17
tag provider_already_registered = 18
tag unknown_validator = 19
tag invalid_validator_set = 20
tag pool_busy = 21
tag pool_closed = 22
tag reconnect_exhausted = 23
tag type_mismatch = 24
tag invalid_json = 25
tag migration_failed = 26
tag no_migrator = 27
tag log_path_invalid = 28
tag run_getter_nil = 29
tag workflow_dispatch_failed = 30
tag secret_not_found = 31
tag fallback_locked = 32
tag auth_failed = 33
tag corrupted_secrets = 34
tag master_password_too_short = 35
tag schema_violation = 36
tag secret_in_config = 37
tag dangling_profile_alias = 38
tag config_schema_mismatch = 39
tag corrupted_config = 40
tag output_too_large = 41
tag unknown_output_format = 42
tag app_not_node = 43
tag app_not_found = 44
tag invalid_domain = 45
tag invalid_user = 46
tag invalid_db_name = 47
tag invalid_node_version = 48
tag invalid_preset = 49
tag preset_schema_violation = 50
tag secret_in_preset = 51
tag preset_invalid_json = 52
tag preset_not_found = 53
tag duplicate_id = 54
tag gh_unavailable = 55
tag repo_exists = 56
tag pat_invalid = 57
tag pat_scope_insufficient = 58
tag rate_limited = 59
tag http_validation_failed = 60
tag http_server_error = 61
tag http_unexpected_status = 62
tag run_not_found = 63
tag steps_parse_error = 64
tag invalid_repo_ref = 65
tag invalid_commit_file_request = 66
tag workflow_file_missing_sha = 67

pub data Error : Type 0 where
  -- a package-level error
  sentinel : Sentinel → Error
  -- an error that no caller compares with
  plain : Error
  -- fmt.Errorf with one %w, and with two (or errors.Join)
  wrap : Error → Error
  join : Error → Error → Error

-- errors.Is
unfoldable pub is : Error → Sentinel → Bool
unfolding tag
is (sentinel s) t = tag s == tag t
is plain t = false
is (wrap e) t = is e t
is (join d e) t = is d t || is e t

combined : Error → Option Error → Error
combined e none = wrap e
combined e (some r) = join e r

-- errors.Join of the errors of a list; nil for none.
unfoldable pub join_all : List Error → Option Error
unfolding combined
join_all [] = none
join_all (e ∷ es) = some (combined e (join_all es))

-- Joined errors are nil for no error at all only.
pub join_all-none : (es : List Error) → join_all es ≡ none → es ≡ []
unfolding join_all
join_all-none [] h = refl
join_all-none (e ∷ es) h = cc

abbrev pub is_some : Option Error → Bool
is_some none = false
is_some (some e) = true

-- The first of two errors.
abbrev pub first_error : Option Error → Option Error → Option Error
first_error (some e) later = some e
first_error none later = later

-- A value or an error, where the source returns both and one of them is nil.
pub data Result {ℓ} (A : Type ℓ) : Type ℓ where
  ok : A → Result A
  err : Error → Result A

pub Result-cases {ℓ} :
    {A : Type ℓ} (r : Result A) → ((a : A) × (r ≡ ok a)) ⊎ ((e : Error) × (r ≡ err e))
Result-cases (ok a) = inl (a, refl)
Result-cases (err e) = inr (e, refl)

pub ok-injective {ℓ} : {A : Type ℓ} {a b : A} → ok a ≡ ok b → a ≡ b
ok-injective h = cc h
