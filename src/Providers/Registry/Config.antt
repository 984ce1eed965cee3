-- ===== src/Providers/Registry/Config.antt =====
-- What validateConfig accepts, and what New hands to a factory.
use webox.Prelude.{
  ◌≡◌, refl, ◌↔◌, true, false, none, some, arith, Option-cases, Bool-cases, inl, inr, [], ◌∷◌,
}
use webox.Prelude.Int.{pos, ◌≤ℤ◌}
use webox.Prelude.Text.{Text, is_empty, trim_space, lookup}
use webox.Errors.{Result, ok, err, wrap, sentinel, unknown_provider}
use webox.Providers.Registry.{
  Factory, Registry, ProviderConfig, matches_alias, normalise, validate_config, new, build,
}

-- What every adapter may rely on.
pub record IsWellFormed (cfg : ProviderConfig) : Type 0 where
  pub alias : matches_alias cfg.alias ≡ true
  pub host : is_empty cfg.host ≡ false
  pub user : is_empty cfg.user ≡ false
  pub port_low : pos 1 ≤ℤ cfg.port
  pub port_high : cfg.port ≤ℤ pos 65535

matches_alias-given : (s : Text) → matches_alias s ≡ true → is_empty s ≡ false
unfolding matches_alias
matches_alias-given [] h = cc
matches_alias-given (c ∷ s) h = refl

-- validateConfig succeeds exactly if the normalised configuration is well formed, and then
-- answers that configuration.
pub validate_config_iff :
    (cfg n : ProviderConfig)
    → (validate_config cfg ≡ ok n) ↔ ((n ≡ normalise cfg) × IsWellFormed (normalise cfg))
unfolding validate_config
validate_config_iff cfg n =
    (λ h. ground arith, λ h. ground (arith, matches_alias-given (normalise cfg).alias))

-- A type that is not registered is reported as such, however wrong the other fields are.
pub new-unknown :
    {P : Type 0} (cfg : ProviderConfig) (m : Registry P)
    → is_empty (trim_space cfg.type) ≡ false
    → lookup (trim_space cfg.type) m ≡ none
    → new cfg m ≡ err (wrap (sentinel unknown_provider))
unfolding new
new-unknown cfg m h q = rw (h, q)

build-ok :
    {P : Type 0} (f : Factory P) (r : Result ProviderConfig) (p : P)
    → build f r ≡ ok p
    → (c : ProviderConfig) × (r ≡ ok c) × (f c ≡ ok p)
unfolding build
build-ok f (ok c) p h = (c, refl, ground arith)
build-ok f (err e) p h = cc

-- A provider that New returns was built by the factory registered for the type, from the
-- normalised configuration, which is well formed.
pub new-ok :
    {P : Type 0} (cfg : ProviderConfig) (m : Registry P) (p : P)
    → new cfg m ≡ ok p
    → let n = normalise (record cfg { type = trim_space cfg.type }) in
      IsWellFormed n × ((f : Factory P) × (lookup (trim_space cfg.type) m ≡ some f) × (f n ≡ ok p))
unfolding new
new-ok cfg m p h = elim (Bool-cases (is_empty (trim_space cfg.type))) [
  | inl q ↦ absurd (cc (rw (q, new) at h))
  | inr q ↦ elim (Option-cases (lookup (trim_space cfg.type) m)) [
    | inl a ↦ absurd (cc (rw (q, a, new) at h))
    | inr (f, a) ↦
        let (c, valid, built) = build-ok f _ p (rw (q, a, new) at h) in
        let (same, formed) = (validate_config_iff _ c).0 valid in (formed, (f, a, rw same at built))
  ]
]
