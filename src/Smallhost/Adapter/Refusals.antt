-- ===== src/Smallhost/Adapter/Refusals.antt =====
-- Calls that the adapter refuses, and an adapter without an executor.
use webox.Prelude.{◌≡◌, refl, ◌≢◌, true, Option, none, some, Option-cases, inl, inr, arith}
use webox.Prelude.Int.{ℤ}
use webox.Prelude.Text.{Text}
use webox.Errors.{
  Error, Sentinel, is, invalid_provider_config, invalid_domain, unknown_output_format, err,
}
use webox.Smallhost.Paths.{validate_domain, validate_node_version}
use webox.Smallhost.Adapter.{
  Provider, set_executor, refused, not_configured, ask_add, error_of, with_domain, exec, query,
  send_checked, create_subdomain, restart_node_app, list_subdomains, remove_subdomain, account_ip,
  with_ip, setup_ssl, remove_ssl, tail_log,
}

validate_domain_error :
    (domain : Text) (e : Error) → validate_domain domain ≡ some e → is e invalid_domain ≡ true
unfolding validate_domain is
validate_domain_error domain e h = ground (arith, h)

-- Nothing was sent, and the error is one of configuration that wraps the validator's.
abbrev pub IsRefused {ℓ} : {W : Type ℓ} → Sentinel → W → W → Option Error → Type ℓ
IsRefused s w v error =
    (v ≡ w)
    × ((e : Error) × (error ≡ some e) × (is e invalid_provider_config ≡ true) × (is e s ≡ true))

domain-IsRefused {ℓ} :
    {W : Type ℓ} (domain : Text) (e : Error) (w : W)
    → validate_domain domain ≡ some e
    → IsRefused invalid_domain w w (some (refused e))
unfolding is
domain-IsRefused domain e w q =
    (refl, (refused e, refl, refl, ground (arith, validate_domain_error domain e q)))

module _ {W : Type 0} (p : Provider W) (domain : Text) where
  -- With a domain that the validator refuses, each method that takes one sends nothing and gives an
  -- error that is ErrInvalidProviderConfig and ErrInvalidDomain.
  pub methods-IsRefused :
      (version : Text) (lines : ℤ) (w : W)
      → validate_domain domain ≢ none
      → IsRefused invalid_domain w
          (create_subdomain p domain version w).0
          (create_subdomain p domain version w).1
        × IsRefused invalid_domain w (restart_node_app p domain w).0 (restart_node_app p domain w).1
        × IsRefused invalid_domain w (remove_subdomain p domain w).0 (remove_subdomain p domain w).1
        × IsRefused invalid_domain w (setup_ssl p domain w).0 (setup_ssl p domain w).1
        × IsRefused invalid_domain w (remove_ssl p domain w).0 (remove_ssl p domain w).1
        × IsRefused invalid_domain w
            (tail_log p domain lines w).0
            (error_of (tail_log p domain lines w).1)
  unfolding create_subdomain restart_node_app remove_subdomain setup_ssl remove_ssl tail_log
  methods-IsRefused version lines w bad = elim (Option-cases (validate_domain domain)) [
    | inl n ↦ absurd (bad n)
    | inr (e, q) ↦
        (let r = domain-IsRefused domain e w q in
          (
            rw (create_subdomain, with_domain, q) r,
            rw (restart_node_app, with_domain, q) r,
            rw (remove_subdomain, with_domain, q) r,
            rw (setup_ssl, with_domain, q) r,
            rw (remove_ssl, with_domain, q) r,
            rw (tail_log, q) r,
          ))
  ]

-- After SetExecutor(nil), each method for a domain and a version that the validators accept sends
-- nothing and gives ErrUnknownOutputFormat.
pub methods_unset :
    {W : Type 0} (p : Provider W) (domain version : Text) (w : W)
    → validate_domain domain ≡ none
    → validate_node_version version ≡ none
    → let q = set_executor p none in
      (create_subdomain q domain version w ≡ (w, some not_configured))
      × (restart_node_app q domain w ≡ (w, some not_configured))
      × (remove_subdomain q domain w ≡ (w, some not_configured))
      × (setup_ssl q domain w ≡ (w, some not_configured))
      × (remove_ssl q domain w ≡ (w, some not_configured))
      × (list_subdomains q w ≡ (w, err not_configured))
      × (is not_configured unknown_output_format ≡ true)
unfolding create_subdomain ask_add restart_node_app remove_subdomain setup_ssl remove_ssl
    list_subdomains is set_executor send_checked query exec account_ip with_ip
methods_unset p domain version w d v = (
  rw (create_subdomain, with_domain, d, ask_add, v) refl,
  rw (restart_node_app, with_domain, d) refl,
  rw (remove_subdomain, with_domain, d) refl,
  rw (setup_ssl, with_domain, d) refl,
  rw (remove_ssl, with_domain, d) refl,
  refl,
  refl,
)
