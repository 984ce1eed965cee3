-- ===== src/Smallhost/Adapter.antt =====
-- The methods of providers/smallhost/methods.go over the executor of providers/smallhost/executor.go.
-- `W` is the world outside: the host behind the executor, and the clock.
pub mod Commands
pub mod Sent
pub mod Requests
pub mod Refusals
pub mod Reachable
use webox.Prelude.{
  ◌≡◌, ℕ, Bool, true, false, ◌&&◌, List, [], ◌∷◌, ◌++◌, Option, none, some, if◌then◌else◌,
}
use webox.Prelude.Int.{ℤ, pos, negsuc, ◌-ℤ◌, quot, ltb_ℤ, leb_ℤ}
use webox.Prelude.Decimal.{format_int}
use webox.Prelude.Text.{Text, codes, text_eq, is_empty}
use webox.Prelude.Words.{join}
use webox.Errors
use webox.Errors.{
  Error, sentinel, plain, invalid_provider_config, unknown_output_format, cli_not_found, Result, ok,
  err,
}
use webox.Providers.{HostingProvider, ProviderStatus, Subdomain}
use webox.Ssh.Exec
use webox.Ssh.Exec.{Channel, ExecResult, no_result}
use webox.Smallhost.Paths.{
  validate_domain, validate_db_name, validate_node_version, join_path, get_log_path,
}
use webox.Smallhost.Parsers.{
  DbAddResult, parse_www_add, parse_www_restart, parse_www_list, parse_vhost_list, parse_ssl_add,
  parse_ssl_delete, parse_db_add, parse_db_delete, parse_delete_outcome, combine,
}

-- Provider: the user of its configuration, the executor, nil until SetExecutor, and the clock in
-- milliseconds.
pub record Provider (W : Type 0) : Type 0 where
  pub user : Text
  pub executor : Option (Text → W → W × ExecResult × Option Error)
  pub now : W → W × ℤ

-- fmt.Errorf with ErrInvalidProviderConfig and the error of a validator.
abbrev pub refused : Error → Error
refused e = Errors.join (sentinel invalid_provider_config) e

-- errExecutorNotConfigured as exec wraps it.
abbrev pub not_configured : Error
not_configured = Errors.join (sentinel unknown_output_format) plain

abbrev pub error_of {ℓ} : {A : Type ℓ} → Result A → Option Error
error_of (ok a) = none
error_of (err e) = some e

-- The words of a command.
abbrev pub command : List Text → Text
command = join 32

abbrev pub cmd_devil : Text
cmd_devil = codes "devil"

abbrev pub database_mysql : Text
database_mysql = codes "mysql"

abbrev pub database_postgres : Text
database_postgres = codes "postgresql"

unfoldable pub db_add_subcommand : Text → Result Text
unfolding text_eq
db_add_subcommand kind =
    if text_eq kind database_mysql
    then ok (codes "mysql add")
    else if text_eq kind database_postgres
    then ok (codes "pgsql add")
    else err (refused plain)

unfoldable pub db_delete_subcommand : Text → Result Text
unfolding text_eq
db_delete_subcommand kind =
    if text_eq kind database_mysql
    then ok (codes "mysql del")
    else if text_eq kind database_postgres
    then ok (codes "pgsql del")
    else err (refused plain)

unfoldable pub clamp_tail_lines : ℤ → ℤ
clamp_tail_lines n =
    if leb_ℤ n (pos 0) then pos 200 else if ltb_ℤ (pos 10000) n then pos 10000 else n

unfoldable pub tail_command : Text → ℤ → Text
unfolding join join_path format_int clamp_tail_lines
tail_command log_dir lines = command (
    codes "tail"
    ∷ codes "-n"
    ∷ format_int (clamp_tail_lines lines)
    ∷ codes "--"
    ∷ join_path (log_dir ∷ codes "node.log" ∷ [])
    ∷ join_path (log_dir ∷ codes "error.log" ∷ [])
    ∷ [])

unfoldable pub is_code : ℤ → ℕ → Bool
is_code a n = leb_ℤ a (pos n) && leb_ℤ (pos n) a

unfoldable pub ip_of : Text → Result Text
unfolding parse_vhost_list
ip_of raw = elim (parse_vhost_list raw) [ err e ↦ err e | ok answer ↦ ok answer.1 ]

unfoldable pub add_error : Text → Option Error
unfolding parse_www_add
add_error raw = error_of (parse_www_add raw)

unfoldable pub delete_error : Text → Option Error
unfolding parse_delete_outcome
delete_error raw = parse_delete_outcome raw (codes "Deleted")

unfoldable pub db_credentials : Text → Result (Text × Text)
unfolding parse_db_add
db_credentials raw = elim (parse_db_add raw) [ err e ↦ err e | ok r ↦ ok (r.user, r.password) ]

-- What CheckStatus makes of the latency and the answer; there is a status also on an error.
unfoldable pub status_answer : ℤ → ExecResult → Option Error → ProviderStatus × Option Error
unfolding is_code
status_answer latency out (some e) =
    (record { ssh_connected = false; cli_installed = false; latency_ms = latency }, some e)
status_answer latency out none = (
  record { ssh_connected = true; cli_installed = is_code out.exit_code 0; latency_ms = latency },
  if is_code out.exit_code 127 then some (sentinel cli_not_found) else none,
)

module _ {W : Type 0} where
  unfoldable pub set_executor :
      Provider W → Option (Text → W → W × ExecResult × Option Error) → Provider W
  set_executor p e = record p { executor = e }

  -- NewSSHExecutor: a command runs over the pool.
  unfoldable pub new_ssh_executor :
      {C : Type 0} → Channel C W → Text → W → W × ExecResult × Option Error
  unfolding Exec.exec
  new_ssh_executor ch = Exec.exec ch

  unfoldable pub exec : Provider W → Text → W → W × ExecResult × Option Error
  exec p cmd w = elim p.executor [
    | none ↦ (w, no_result, some not_configured)
    | some run ↦ run cmd w
  ]

  -- A command, and a parser of its answer.
  unfoldable pub query : {A : Type 0} → Provider W → Text → (Text → Result A) → W → W × Result A
  unfolding exec combine
  query p cmd parse w =
      let out : W × ExecResult × Option Error = exec p cmd w in
      elim out.2 [ some e ↦ (out.0, err e) | none ↦ (out.0, parse (combine out.1)) ]

  unfoldable pub send_checked : Provider W → Text → (Text → Option Error) → W → W × Option Error
  unfolding exec combine
  send_checked p cmd check w =
      let out : W × ExecResult × Option Error = exec p cmd w in
      elim out.2 [ some e ↦ (out.0, some e) | none ↦ (out.0, check (combine out.1)) ]

  -- The check of the domain before a method.
  abbrev pub with_domain : Text → (W → W × Option Error) → W → W × Option Error
  with_domain domain go w = elim (validate_domain domain) [
    | some e ↦ (w, some (refused e))
    | none ↦ go w
  ]

  unfoldable pub ask_add : Provider W → Text → Text → W → W × Option Error
  unfolding validate_node_version join send_checked add_error
  ask_add p domain node_version w = elim (validate_node_version node_version) [
    | some e ↦ (w, some (refused e))
    | none ↦
        send_checked p
          (command (cmd_devil ∷ codes "www add" ∷ domain ∷ codes "nodejs" ∷ node_version ∷ []))
          add_error w
  ]

  unfoldable pub create_subdomain : Provider W → Text → Text → W → W × Option Error
  unfolding validate_domain ask_add
  create_subdomain p domain node_version = with_domain domain (ask_add p domain node_version)

  unfoldable pub restart_node_app : Provider W → Text → W → W × Option Error
  unfolding validate_domain join send_checked parse_www_restart
  restart_node_app p domain =
      with_domain domain
        (send_checked p (command (cmd_devil ∷ codes "www restart" ∷ domain ∷ [])) parse_www_restart)

  unfoldable pub list_subdomains : Provider W → W → W × Result (List Subdomain)
  unfolding query parse_www_list
  list_subdomains p = query p (cmd_devil ++ 32 ∷ codes "www list") parse_www_list

  unfoldable pub remove_subdomain : Provider W → Text → W → W × Option Error
  unfolding validate_domain join send_checked delete_error
  remove_subdomain p domain =
      with_domain domain
        (send_checked p (command (cmd_devil ∷ codes "www del" ∷ domain ∷ [])) delete_error)

  unfoldable pub account_ip : Provider W → W → W × Result Text
  unfolding query ip_of
  account_ip p = query p (cmd_devil ++ 32 ∷ codes "vhost list") ip_of

  -- A command with the address of the account.
  with_ip : Provider W → (Text → W → W × Option Error) → W → W × Option Error
  unfolding account_ip
  with_ip p go w =
      let ip : W × Result Text = account_ip p w in
      elim ip.1 [ err e ↦ (ip.0, some e) | ok a ↦ go a ip.0 ]

  unfoldable pub ask_ssl : Provider W → Text → Text → W → W × Option Error
  unfolding join send_checked parse_ssl_add
  ask_ssl p domain ip =
      send_checked p
        (command (cmd_devil ∷ codes "ssl www add" ∷ ip ∷ codes "le" ∷ codes "le" ∷ domain ∷ []))
        parse_ssl_add

  unfoldable pub setup_ssl : Provider W → Text → W → W × Option Error
  unfolding validate_domain with_ip ask_ssl
  setup_ssl p domain = with_domain domain (with_ip p (ask_ssl p domain))

  unfoldable pub ask_no_ssl : Provider W → Text → Text → W → W × Option Error
  unfolding join send_checked parse_ssl_delete
  ask_no_ssl p domain ip =
      send_checked p (command (cmd_devil ∷ codes "ssl www del" ∷ ip ∷ domain ∷ [])) parse_ssl_delete

  unfoldable pub remove_ssl : Provider W → Text → W → W × Option Error
  unfolding validate_domain with_ip ask_no_ssl
  remove_ssl p domain = with_domain domain (with_ip p (ask_no_ssl p domain))

  unfoldable pub create_database : Provider W → Text → Text → W → W × Result (Text × Text)
  unfolding validate_db_name db_add_subcommand join query db_credentials
  create_database p kind name w = elim (validate_db_name name) [
    | some e ↦ (w, err (refused e))
    | none ↦ elim (db_add_subcommand kind) [
      | err e ↦ (w, err e)
      | ok sub ↦ query p (command (cmd_devil ∷ sub ∷ name ∷ [])) db_credentials w
    ]
  ]

  unfoldable pub remove_database : Provider W → Text → Text → W → W × Option Error
  unfolding validate_db_name db_delete_subcommand join send_checked parse_db_delete
  remove_database p kind name w = elim (validate_db_name name) [
    | some e ↦ (w, some (refused e))
    | none ↦ elim (db_delete_subcommand kind) [
      | err e ↦ (w, some e)
      | ok sub ↦ send_checked p (command (cmd_devil ∷ sub ∷ name ∷ [])) parse_db_delete w
    ]
  ]

  -- The answer of tail: an exit code above 0 is no failure.
  tail_answer : W × ExecResult × Option Error → W × Result Text
  unfolding combine
  tail_answer out = elim out.2 [
    | none ↦ (out.0, ok out.1.stdout)
    | some e ↦ if ltb_ℤ (pos 0) out.1.exit_code then (out.0, ok (combine out.1)) else (out.0, err e)
  ]

  unfoldable pub tail_log : Provider W → Text → ℤ → W → W × Result Text
  unfolding validate_domain exec tail_answer tail_command get_log_path
  tail_log p domain lines w = elim (validate_domain domain) [
    | some e ↦ (w, err (refused e))
    | none ↦
        if is_empty (get_log_path p.user domain)
        then (w, err (refused plain))
        else tail_answer (exec p (tail_command (get_log_path p.user domain) lines) w)
  ]

  unfoldable pub check_status : Provider W → W → W × Option ProviderStatus × Option Error
  unfolding exec status_answer ◌-ℤ◌
  check_status p w =
      let start : W × ℤ = p.now w in
      let out : W × ExecResult × Option Error = exec p (codes "devil --version") start.0 in
      let stop : W × ℤ = p.now out.0 in
      let answer : ProviderStatus × Option Error = status_answer (stop.1 -ℤ start.1) out.1 out.2 in
      (stop.0, some answer.0, answer.1)

  -- The adapter as the wizard sees it.
  unfoldable pub hosting_provider : Provider W → HostingProvider W
  unfolding check_status list_subdomains create_subdomain setup_ssl create_database remove_subdomain
      remove_ssl remove_database
  hosting_provider p = record {
    name = codes "smallhost";
    check_status = check_status p;
    list_subdomains = list_subdomains p;
    create_subdomain = create_subdomain p;
    setup_ssl = setup_ssl p;
    create_database = create_database p;
    remove_subdomain = remove_subdomain p;
    remove_ssl = remove_ssl p;
    remove_database = remove_database p;
  }
