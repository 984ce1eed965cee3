-- ===== src/Smallhost/Parsers.antt =====
-- The parsers of providers/smallhost/parsers.go, parseDeleteOutcome and combine (methods.go).
pub mod Printed
pub mod Rows
use webox.Prelude.{
  ℕ, Bool, true, false, ◌&&◌, ◌||◌, List, [], ◌∷◌, ◌++◌, Option, none, some, if◌then◌else◌, neg,
  leb, length,
}
use webox.Prelude.Text.{Text, codes, is_empty, has_prefix, contains, trim_space}
use webox.Prelude.Words.{split, fields, to_lower}
use webox.Errors.{
  Sentinel, Error, sentinel, wrap, subdomain_exists, node_version_unsupported, app_not_node,
  app_not_found, dns_not_resolving, rate_limit_lets_encrypt, db_name_taken, unknown_output_format,
  Result, ok, err,
}
use webox.Ssh.Exec.{ExecResult}
use webox.Providers.{Subdomain}
use webox.Smallhost.Clean.{strip_and_normalize}
use webox.Smallhost.Scan.{match_www_add, match_www_row, has_ipv4, find_field}

abbrev pub unknown : Error
unknown = wrap (sentinel unknown_output_format)

abbrev pub on_clean {ℓ} : {A : Type ℓ} → Text → (Text → Result A) → Result A
on_clean raw parse = elim (strip_and_normalize raw) [ err e ↦ err e | ok clean ↦ parse clean ]

-- A parser that gives only an error.
abbrev pub check_clean : Text → (Text → Option Error) → Option Error
check_clean raw check = elim (strip_and_normalize raw) [ err e ↦ some e | ok clean ↦ check clean ]

pub record WwwAddResult : Type 0 where
  pub domain : Text
  pub node_version : Text

-- The loop over the lines.
www_add_lines : List Text → Result WwwAddResult
unfolding match_www_add trim_space
www_add_lines [] = err unknown
www_add_lines (line ∷ lines) = elim (match_www_add (trim_space line)) [
  | some found ↦ ok (record { domain = found.0; node_version = found.1 })
  | none ↦ www_add_lines lines
]

www_add_text : Text → Result WwwAddResult
unfolding www_add_lines has_prefix split
www_add_text text =
    if has_prefix text (codes "exists:")
    then err (sentinel subdomain_exists)
    else if has_prefix text (codes "invalid node version")
    then err (sentinel node_version_unsupported)
    else www_add_lines (split 10 text)

unfoldable pub parse_www_add : Text → Result WwwAddResult
unfolding www_add_text strip_and_normalize
parse_www_add raw = on_clean raw λ clean. www_add_text (trim_space clean)

unfoldable pub parse_www_restart : Text → Option Error
unfolding strip_and_normalize trim_space has_prefix
parse_www_restart raw = check_clean raw λ clean.
    let text : Text = trim_space clean in
    if has_prefix text (codes "Restarted ")
    then none
    else if has_prefix text (codes "not a nodejs domain")
    then some (sentinel app_not_node)
    else if has_prefix text (codes "not found")
    then some (sentinel app_not_found)
    else some unknown

pub record VhostEntry : Type 0 where
  pub domain : Text
  pub ip : Text
  pub type : Text

-- A row of at least three fields.
unfoldable pub vhost_entry : List Text → Option VhostEntry
unfolding has_ipv4
vhost_entry [] = none
vhost_entry (domain ∷ []) = none
vhost_entry (domain ∷ ip ∷ []) = none
vhost_entry (domain ∷ ip ∷ type ∷ more) =
    if has_ipv4 ip then some (record { domain = domain; ip = ip; type = type }) else none

abbrev pub add_entry {ℓ} : {A : Type ℓ} → A → Result (List A) → Result (List A)
add_entry a (err e) = err e
add_entry a (ok rest) = ok (a ∷ rest)

-- A line that holds no row: blank, or the header in the first place.
abbrev pub is_skipped : Bool → Text → Bool
is_skipped first line = is_empty line || (first && has_prefix line (codes "domain"))

-- The loop over the lines; the flag stands for `i == 0`.
unfoldable pub vhost_rows : Bool → List Text → Result (List VhostEntry)
unfolding vhost_entry fields trim_space has_prefix
vhost_rows first [] = ok []
vhost_rows first (raw ∷ lines) =
    let line : Text = trim_space raw in
    let rest = vhost_rows false lines in
    if is_skipped first line
    then rest
    else elim (vhost_entry (fields line)) [ none ↦ err unknown | some entry ↦ add_entry entry rest ]

-- The address of the first row, which has one.
unfoldable pub first_ip : List VhostEntry → Text
first_ip [] = []
first_ip (entry ∷ entries) = if is_empty entry.ip then first_ip entries else entry.ip

vhost_answer : List VhostEntry → Result (List VhostEntry × Text)
unfolding first_ip
vhost_answer entries =
    if is_empty (first_ip entries) then err unknown else ok (entries, first_ip entries)

unfoldable pub parse_vhost_list : Text → Result (List VhostEntry × Text)
unfolding vhost_rows vhost_answer strip_and_normalize split
parse_vhost_list raw = on_clean raw λ clean. elim (vhost_rows true (split 10 clean)) [
  | err e ↦ err e
  | ok entries ↦ vhost_answer entries
]

unfoldable pub parse_ssl_add : Text → Option Error
unfolding strip_and_normalize trim_space has_prefix to_lower contains
parse_ssl_add raw = check_clean raw λ clean.
    let text : Text = trim_space clean in
    let lower : Text = to_lower text in
    if has_prefix text (codes "Certificate installed")
    then none
    else if contains lower (codes "dns not configured")
        || contains lower (codes "dns not resolving")
    then some (sentinel dns_not_resolving)
    else if contains lower (codes "rate limit")
    then some (sentinel rate_limit_lets_encrypt)
    else some unknown

-- parseSSLDelete, parseDBDelete and parseDeleteOutcome: one of two prefixes.
unfoldable pub parse_removal : Text → Text → Text → Option Error
unfolding strip_and_normalize trim_space has_prefix
parse_removal done gone raw = check_clean raw λ clean.
    let text : Text = trim_space clean in
    if has_prefix text done then none else if has_prefix text gone then none else some unknown

unfoldable pub parse_ssl_delete : Text → Option Error
unfolding parse_removal
parse_ssl_delete = parse_removal (codes "Removed SSL") (codes "no cert")

unfoldable pub parse_db_delete : Text → Option Error
unfolding parse_removal
parse_db_delete = parse_removal (codes "Deleted ") (codes "not found")

unfoldable pub parse_delete_outcome : Text → Text → Option Error
unfolding parse_removal
parse_delete_outcome raw success_prefix = parse_removal success_prefix (codes "not found") raw

pub record DbAddResult : Type 0 where
  pub user : Text
  pub password : Text

db_fields : Option Text → Option Text → Result DbAddResult
db_fields (some user) (some password) = ok (record { user = user; password = password })
db_fields none p = err unknown
db_fields (some user) none = err unknown

unfoldable pub parse_db_add : Text → Result DbAddResult
unfolding db_fields strip_and_normalize contains find_field
parse_db_add raw = on_clean raw λ text.
    if contains text (codes "database exists")
    then err (sentinel db_name_taken)
    else db_fields (find_field (codes "Username:") true text)
        (find_field (codes "Password:") true text)

-- The loop of parseWwwList.
unfoldable pub www_rows : Bool → List Text → Result (List Subdomain)
unfolding match_www_row trim_space has_prefix
www_rows first [] = ok []
www_rows first (raw ∷ lines) =
    let line : Text = trim_space raw in
    let rest = www_rows false lines in
    if is_skipped first line
    then rest
    else elim (match_www_row line) [ none ↦ err unknown | some row ↦ add_entry row rest ]

unfoldable pub parse_www_list : Text → Result (List Subdomain)
unfolding www_rows strip_and_normalize split
parse_www_list raw = on_clean raw λ clean. www_rows true (split 10 clean)

unfoldable pub combine : ExecResult → Text
combine out =
    if is_empty out.stderr
    then out.stdout
    else if is_empty out.stdout
    then out.stderr
    else out.stdout ++ 10 ∷ out.stderr
