-- ===== src/Smallhost/Adapter/Sent.antt =====
-- What every command that the adapter sends keeps.
use webox.Prelude.{
  ◌≡◌, refl, List, [], ◌∷◌, Option, none, All, Option-cases, Bool-cases, arith, inl, inr,
}
use webox.Prelude.Int.{ℤ}
use webox.Prelude.Text.{Text, codes, is_empty}
use webox.Prelude.Words.{all}
use webox.Errors.{Error, Result, Result-cases, ok}
use webox.Ssh.Exec.{ExecResult}
use webox.Smallhost.Paths.{validate_domain, validate_db_name, validate_node_version, get_log_path}
use webox.Smallhost.Parsers.{
  parse_www_list, parse_www_restart, parse_ssl_add, parse_ssl_delete, parse_db_delete,
}
use webox.Smallhost.Adapter.{
  Provider, command, cmd_devil, with_domain, db_add_subcommand, db_delete_subcommand, tail_command,
  exec, query, send_checked, create_subdomain, restart_node_app, list_subdomains, remove_subdomain,
  ip_of, add_error, delete_error, db_credentials, ask_add, ask_ssl, ask_no_ssl, account_ip, with_ip,
  setup_ssl, remove_ssl, create_database, remove_database, tail_answer, tail_log,
}
use webox.Smallhost.Adapter.Commands.{
  IsPlain, join-IsPlain, domain-IsPlain, db_name-IsPlain, node_version-IsPlain,
  get_log_path-IsPlain, tail_command-IsPlain, add_subcommand-IsPlain, delete_subcommand-IsPlain,
}

module _ {W : Type 0} (p : Provider W) (P : W → Type 0)
    (keeps : (cmd : Text) (w : W) → IsPlain cmd → P w → P (exec p cmd w).0) where
  query-keeps :
      {A : Type 0} (cmd : Text) (parse : Text → Result A) (w : W)
      → IsPlain cmd
      → P w
      → P (query p cmd parse w).0
  unfolding query
  query-keeps cmd parse w plain h = elim (Option-cases (exec p cmd w).2) [
    | inl q ↦ rw (query, q) (keeps cmd w plain h)
    | inr (e, q) ↦ rw (query, q) (keeps cmd w plain h)
  ]

  send_checked-keeps :
      (cmd : Text) (check : Text → Option Error) (w : W)
      → IsPlain cmd
      → P w
      → P (send_checked p cmd check w).0
  unfolding send_checked
  send_checked-keeps cmd check w plain h = elim (Option-cases (exec p cmd w).2) [
    | inl q ↦ rw (send_checked, q) (keeps cmd w plain h)
    | inr (e, q) ↦ rw (send_checked, q) (keeps cmd w plain h)
  ]

  send_words-keeps :
      (words : List Text) (check : Text → Option Error) (w : W)
      → All IsPlain words
      → P w
      → P (send_checked p (command words) check w).0
  send_words-keeps words check w plain =
      send_checked-keeps (command words) check w (join-IsPlain words plain)

  with_domain-keeps :
      (domain : Text) (go : W → W × Option Error) (w : W)
      → (validate_domain domain ≡ none → P (go w).0)
      → P w
      → P (with_domain domain go w).0
  with_domain-keeps domain go w sent h = elim (Option-cases (validate_domain domain)) [
    | inr (e, q) ↦ rw (with_domain, q) h
    | inl d ↦ rw (with_domain, d) (sent d)
  ]

  ask_add-keeps :
      (domain version : Text) (w : W)
      → validate_domain domain ≡ none
      → P w
      → P (ask_add p domain version w).0
  unfolding ask_add all
  ask_add-keeps domain version w d h = elim (Option-cases (validate_node_version version)) [
    | inr (e, q) ↦ rw (ask_add, q) h
    | inl v ↦
        rw (ask_add, v)
          (send_words-keeps (cmd_devil ∷ codes "www add" ∷ domain ∷ codes "nodejs" ∷ version ∷ [])
            add_error w
            (refl, (refl, (domain-IsPlain domain d, (refl, (node_version-IsPlain version v, tt)))))
            h)
  ]

  pub create_subdomain-keeps :
      (domain version : Text) (w : W) → P w → P (create_subdomain p domain version w).0
  unfolding create_subdomain
  create_subdomain-keeps domain version w h =
      with_domain-keeps domain (ask_add p domain version) w
        (λ d. ask_add-keeps domain version w d h) h

  pub restart_node_app-keeps : (domain : Text) (w : W) → P w → P (restart_node_app p domain w).0
  unfolding restart_node_app all
  restart_node_app-keeps domain w h =
      let words : List Text = cmd_devil ∷ codes "www restart" ∷ domain ∷ [] in
      with_domain-keeps domain (send_checked p (command words) parse_www_restart) w
        (λ d.
          send_words-keeps words parse_www_restart w (refl, (refl, (domain-IsPlain domain d, tt)))
            h)
        h

  pub remove_subdomain-keeps : (domain : Text) (w : W) → P w → P (remove_subdomain p domain w).0
  unfolding remove_subdomain all
  remove_subdomain-keeps domain w h =
      let words : List Text = cmd_devil ∷ codes "www del" ∷ domain ∷ [] in
      with_domain-keeps domain (send_checked p (command words) delete_error) w
        (λ d. send_words-keeps words delete_error w (refl, (refl, (domain-IsPlain domain d, tt))) h)
        h

  account_ip-keeps : (w : W) → P w → P (account_ip p w).0
  unfolding account_ip all
  account_ip-keeps w = query-keeps (codes "devil vhost list") ip_of w refl

  pub list_subdomains-keeps : (w : W) → P w → P (list_subdomains p w).0
  unfolding list_subdomains all
  list_subdomains-keeps w = query-keeps (codes "devil www list") parse_www_list w refl

  pub create_database-keeps : (kind name : Text) (w : W) → P w → P (create_database p kind name w).0
  unfolding create_database all
  create_database-keeps kind name w h = elim (Option-cases (validate_db_name name)) [
    | inr (e, q) ↦ rw (create_database, q) h
    | inl n ↦ elim (Result-cases (db_add_subcommand kind)) [
      | inr (e, q) ↦ rw (create_database, n, q) h
      | inl (sub, q) ↦
          rw (create_database, n, q)
            (query-keeps (command (cmd_devil ∷ sub ∷ name ∷ [])) db_credentials w
              (join-IsPlain (cmd_devil ∷ sub ∷ name ∷ [])
                (refl, (add_subcommand-IsPlain kind sub q, (db_name-IsPlain name n, tt))))
              h)
    ]
  ]

  pub remove_database-keeps : (kind name : Text) (w : W) → P w → P (remove_database p kind name w).0
  unfolding remove_database all
  remove_database-keeps kind name w h = elim (Option-cases (validate_db_name name)) [
    | inr (e, q) ↦ rw (remove_database, q) h
    | inl n ↦ elim (Result-cases (db_delete_subcommand kind)) [
      | inr (e, q) ↦ rw (remove_database, n, q) h
      | inl (sub, q) ↦
          rw (remove_database, n, q)
            (send_words-keeps (cmd_devil ∷ sub ∷ name ∷ []) parse_db_delete w
              (refl, (delete_subcommand-IsPlain kind sub q, (db_name-IsPlain name n, tt))) h)
    ]
  ]

  tail_answer_world : (out : W × ExecResult × Option Error) → (tail_answer out).0 ≡ out.0
  unfolding tail_answer
  tail_answer_world out = elim (Option-cases out.2) [
    | inl q ↦ rw (tail_answer, q) refl
    | inr (e, q) ↦ rw (tail_answer, q) (ground arith)
  ]

  pub tail_log-keeps : (domain : Text) (lines : ℤ) (w : W) → P w → P (tail_log p domain lines w).0
  unfolding tail_log
  tail_log-keeps domain lines w h = elim (Option-cases (validate_domain domain)) [
    | inr (e, q) ↦ rw (tail_log, q) h
    | inl d ↦ elim (Bool-cases (is_empty (get_log_path p.user domain))) [
      | inl q ↦ rw (tail_log, d, q) h
      | inr q ↦
          rw (tail_log, d, q)
            (rw (tail_answer_world (exec p (tail_command (get_log_path p.user domain) lines) w)) (
              keeps _ w
                (tail_command-IsPlain (get_log_path p.user domain) lines
                  (get_log_path-IsPlain p.user domain))
                h))
    ]
  ]

  module _ (plain_ip : (w : W) (ip : Text) → (account_ip p w).1 ≡ ok ip → IsPlain ip) where
    with_ip-keeps :
        (go : Text → W → W × Option Error) (w : W)
        → ((ip : Text) (v : W) → IsPlain ip → P v → P (go ip v).0)
        → P w
        → P (with_ip p go w).0
    unfolding with_ip
    with_ip-keeps go w sent h = elim (Result-cases (account_ip p w).1) [
      | inr (e, q) ↦ rw (with_ip, q) (account_ip-keeps w h)
      | inl (ip, q) ↦ rw (with_ip, q) (sent ip _ (plain_ip w ip q) (account_ip-keeps w h))
    ]

    pub setup_ssl-keeps : (domain : Text) (w : W) → P w → P (setup_ssl p domain w).0
    unfolding setup_ssl ask_ssl all
    setup_ssl-keeps domain w h =
        with_domain-keeps domain (with_ip p (ask_ssl p domain)) w
          (λ d.
            with_ip-keeps (ask_ssl p domain) w
              (λ ip v plain k.
                send_words-keeps
                  (cmd_devil ∷ codes "ssl www add" ∷ ip ∷ codes "le" ∷ codes "le" ∷ domain ∷ [])
                  parse_ssl_add v
                  (refl, (refl, (plain, (refl, (refl, (domain-IsPlain domain d, tt)))))) k)
              h)
          h

    pub remove_ssl-keeps : (domain : Text) (w : W) → P w → P (remove_ssl p domain w).0
    unfolding remove_ssl ask_no_ssl all
    remove_ssl-keeps domain w h =
        with_domain-keeps domain (with_ip p (ask_no_ssl p domain)) w
          (λ d.
            with_ip-keeps (ask_no_ssl p domain) w
              (λ ip v plain k.
                send_words-keeps (cmd_devil ∷ codes "ssl www del" ∷ ip ∷ domain ∷ [])
                  parse_ssl_delete v (refl, (refl, (plain, (domain-IsPlain domain d, tt)))) k)
              h)
          h
