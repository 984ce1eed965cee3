-- ===== src/Smallhost/Tests.antt =====
-- Concrete runs of the adapter.
use webox.Prelude.Text.{text_eq}
use webox.Prelude.{
  map, ◌≡◌, ◌≢◌, refl, subst, inl, inr, ◌≤◌, ◌^◌, ℕ, true, List, [], ◌∷◌, ◌++◌, none, some, All,
  arith, length,
}
use webox.Prelude.Int.{pos}
use webox.Prelude.Text.{Text, codes}
use webox.Prelude.Words.{all, byte_length}
use webox.Errors.{sentinel, wrap, plain, invalid_domain, ok, ok-injective}
use webox.Providers.{ProviderStatus}
use webox.Ssh.Exec.{Channel, finished}
use webox.Smallhost.Paths.{
  validate_domain, subdir_nodejs, subdir_public, subdir_logs, env_filename, subdir_storage_img,
  get_deploy_path, get_log_path, env_path, storage_path,
}
use webox.Smallhost.Paths.Segments.{IsUnder, paths-IsUnder}
use webox.Smallhost.Clean.{strip_and_normalize}
use webox.Smallhost.Clean.Laws.{is_clean, strip_and_normalize_sound}
use webox.Smallhost.Scan.{has_ipv4}
use webox.Smallhost.Parsers.{parse_www_add, parse_db_add, parse_www_list}
use webox.Smallhost.Parsers.Printed.{Line, print_rows}
use webox.Smallhost.Parsers.Rows.{parse_www_list-print_rows}
use webox.Smallhost.Adapter.{
  Provider, set_executor, new_ssh_executor, exec, account_ip, check_status,
}
use webox.Smallhost.Adapter.Commands.{IsPlain}
use webox.Smallhost.Adapter.Requests.{
  Request, create, secure, remove, status, tail, perform_all, perform_all-keeps,
}
use webox.Smallhost.Adapter.Reachable.{IsAnswer, check_status-IsAnswer}

abbrev site : Text
site = codes "shop.example.pl"

paths-IsUnder_example :
    IsUnder
      (codes "ann")
      site
      (subdir_nodejs ∷ subdir_public ∷ [])
      (get_deploy_path (codes "ann") site)
    × IsUnder (codes "ann") site (subdir_logs ∷ []) (get_log_path (codes "ann") site)
    × IsUnder (codes "ann") site (subdir_nodejs ∷ env_filename ∷ []) (env_path (codes "ann") site)
    × IsUnder
        (codes "ann")
        site
        (subdir_nodejs ∷ subdir_public ∷ subdir_storage_img ∷ [])
        (storage_path (codes "ann") site)
paths-IsUnder_example = paths-IsUnder (codes "ann") site

deploy_path :
    get_deploy_path (codes "ann") site
    ≡ codes "/usr/home/ann/domains/shop.example.pl/public_nodejs/public"
unfolding get_deploy_path text_eq byte_length
deploy_path = refl

traversal : get_log_path (codes "ann") (codes "../etc") ≡ []
unfolding get_log_path text_eq byte_length
traversal = refl

-- A red word, and a carriage return.
abbrev coloured : Text
coloured = 27 ∷ b'[' ∷ b'3' ∷ b'1' ∷ b'm' ∷ b'o' ∷ b'k' ∷ 27 ∷ b'[' ∷ b'm' ∷ 13 ∷ 10 ∷ []

cleaned : strip_and_normalize coloured ≡ ok (codes "ok" ++ 10 ∷ [])
unfolding strip_and_normalize
cleaned = refl

strip_and_normalize_sound_example :
    (length coloured ≤ 2 ^ 20)
    × (length (codes "ok" ++ 10 ∷ []) ≤ length coloured)
    × (all is_clean (codes "ok" ++ 10 ∷ []) ≡ true)
    × (strip_and_normalize (codes "ok" ++ 10 ∷ []) ≡ ok (codes "ok" ++ 10 ∷ []))
strip_and_normalize_sound_example =
    strip_and_normalize_sound coloured (codes "ok" ++ 10 ∷ []) cleaned

-- Two rows with their columns padded.
abbrev rows : List Line
rows =
    record {
      row = record { domain = site; type = codes "nodejs"; node_version = codes "22" };
      after_domain = 19;
      after_type = 2;
    }
    ∷ record {
      row = record { domain = codes "www.example.pl"; type = codes "static"; node_version = [] };
      after_domain = 20;
      after_type = 2;
    }
    ∷ []

parse_www_list-print_rows_example : parse_www_list (print_rows rows) ≡ ok (map (λ l. l.row) rows)
unfolding all text_eq
parse_www_list-print_rows_example =
    parse_www_list-print_rows rows
      (((refl, refl), refl, inr ((refl, refl), refl)), (((refl, refl), refl, inl refl), tt))
      (omega arith)

added :
    parse_www_add (codes "Added domain a.pl with nodejs 22")
    ≡ ok (record { domain = codes "a.pl"; node_version = codes "22" })
unfolding parse_www_add
added = refl

credentials_found :
    parse_db_add (codes "Username: u1" ++ 10 ∷ codes "Password:   p-w " ++ 10 ∷ [])
    ≡ ok (record { user = codes "u1"; password = codes "p-w" })
unfolding parse_db_add
credentials_found = refl

-- The text behind an address is taken for a part of it, and goes into the command of SetupSSL.
loose_address : has_ipv4 (codes "1.2.3.4;id") ≡ true
unfolding has_ipv4
loose_address = refl

-- A host that logs the commands, and answers each with one virtual host.
abbrev host : Provider (List Text)
host = record {
  user = codes "ann";
  executor = some λ cmd w. (
    cmd ∷ w,
    record { stdout = codes "a.pl 1.2.3.4 nodejs"; stderr = []; exit_code = pos 0 },
    none,
  );
  now = λ w. (w, pos 0);
}

account_ip-IsPlain : (w : List Text) (ip : Text) → (account_ip host w).1 ≡ ok ip → IsPlain ip
unfolding account_ip all
account_ip-IsPlain w ip h = subst IsPlain (ok-injective h) refl

abbrev calls : List Request
calls =
    create site (codes "22") ∷ secure site ∷ tail site (pos 50) ∷ status ∷ remove (codes "a;b") ∷ []

perform_all-keeps_example : All IsPlain (perform_all host calls [])
unfolding exec
perform_all-keeps_example =
    perform_all-keeps host (All IsPlain) (λ cmd w plain h. (plain, h)) (λ w h. h) account_ip-IsPlain
      calls [] tt

-- A reached host whose shell does not find the command.
abbrev bare_host : Channel ℕ (List Text)
bare_host = record {
  acquire = λ w. (w, ok 1);
  release = λ c w. w;
  new_session = λ c w. (w, none);
  run = λ cmd w. (
    cmd ∷ w,
    [],
    codes "not found",
    finished (some (record { error = plain; exit_status = some (pos 127) })),
  );
  close_session = λ w. w;
}

check_status-IsAnswer_example :
    (s : ProviderStatus) × ((check_status
        (set_executor host (some (new_ssh_executor bare_host)))
        []).1
      ≡ some s)
    × IsAnswer
        (new_ssh_executor bare_host (codes "devil --version") []).2
        (s, (check_status (set_executor host (some (new_ssh_executor bare_host))) []).2)
check_status-IsAnswer_example = check_status-IsAnswer bare_host host []

abbrev bad : Text
bad = codes "a;b"

bad_refused : validate_domain bad ≢ none
unfolding validate_domain text_eq byte_length
bad_refused h =
    let e : validate_domain bad ≡ some (wrap (sentinel invalid_domain)) = refl in cc (e, h)
