-- ===== src/Wizard/Execute/Checks.antt =====
-- The two reads that stand before an execution.
use webox.Prelude.{
  ◌≡◌, ◌≢◌, refl, ◌↔◌, true, false, List, [], ◌∷◌, none, some, arith, inl, inr, All, Option-cases,
  Bool-cases,
}
use webox.Prelude.Text.{Text, text_eq_iff, is_empty}
use webox.Errors.{ok, Result-cases}
use webox.Providers.{HostingProvider, ProviderStatus, Subdomain}
use webox.Wizard.Execute.{preflight, has_domain, check_subdomain_available}

module _ {W : Type 0} (p : HostingProvider W) (w : W) where
  -- Preflight answers no error exactly if the panel answered a status without an error, and the
  -- status says that SSH is connected and the panel's CLI is installed.
  pub preflight_iff : ((preflight (some p) w).2 ≡ none) ↔ (
      (s : ProviderStatus) × ((p.check_status w).2 ≡ none)
      × ((p.check_status w).1 ≡ some s)
      × (s.ssh_connected ≡ true)
      × (s.cli_installed ≡ true))
  unfolding preflight
  preflight_iff = elim (Option-cases (p.check_status w).1) [
    | inl q ↦ (λ h. ground arith, λ (s, a, b, c, d). cc (q, b))
    | inr (s, q) ↦
        (λ h. (s, ground arith, q, ground arith, ground arith), λ (s', a, b, c, d). ground arith)
  ]

  absent :
      (domain : Text) (l : List Subdomain)
      → (has_domain domain l ≡ false) ↔ All (λ s. s.domain ≢ domain) l
  unfolding has_domain
  absent domain [] = (λ h. tt, λ h. refl)
  absent domain (s ∷ l) = (
    λ h. (λ e. ground (arith, text_eq_iff s.domain domain), (absent domain l).0 (ground arith)),
    λ (n, rest). ground (arith, text_eq_iff s.domain domain, (absent domain l).1 rest, n),
  )

  -- CheckSubdomainAvailable answers no error exactly if the domain is given, the panel answered a
  -- list, and no subdomain on it has that domain.
  pub check_subdomain_available_iff :
      (domain : Text)
      → ((check_subdomain_available (some p) domain w).1 ≡ none) ↔ (
          (is_empty domain ≡ false)
          × ((l : List Subdomain) × ((p.list_subdomains w).1 ≡ ok l)
              × All (λ s. s.domain ≢ domain) l))
  unfolding check_subdomain_available
  check_subdomain_available_iff domain = elim (Bool-cases (is_empty domain)) [
    | inl q ↦ (λ h. ground arith, λ (g, _). cc (q, g))
    | inr q ↦ elim (Result-cases (p.list_subdomains w).1) [
      | inl (l, r) ↦
          rw (q, r, check_subdomain_available)
            (
              λ h. (refl, (l, refl, (absent domain l).0 (ground arith))),
              λ (_, (l', same, all)).
                  let e : l' ≡ l = ground arith in
                  ground (arith, (absent domain l).1 (rw e at all)),
            )
      | inr (e, r) ↦ (λ h. ground arith, λ (_, (l, same, _)). cc (r, same))
    ]
  ]
