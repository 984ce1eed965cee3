-- ===== src/Providers/Registry/Tests.antt =====
-- Registrations and configurations of one adapter.
use webox.Prelude.{◌≡◌, refl, [], ◌∷◌, none, some, if◌then◌else◌}
use webox.Prelude.Int.{ℤ, pos}
use webox.Prelude.Text.{codes, text_eq, lookup, sort_texts, text_le}
use webox.Errors.{ok}
use webox.Providers.{PlanValidators}
use webox.Providers.Registry.{Factory, Registry, ProviderConfig, unregister, names}
use webox.Providers.Registry.Laws.{unregister_settled}

-- An adapter is the port that it was given.
abbrev factory : Factory ℤ
factory cfg = ok cfg.port

abbrev one : Registry ℤ
one = (codes "smallhost", factory) ∷ []

abbrev cfg : ProviderConfig
cfg = record {
  type = codes " smallhost ";
  alias = codes "main ";
  host = codes "h";
  port = pos 0;
  user = codes "u";
  properties = none;
}

abbrev bad : ProviderConfig
bad = record cfg { type = codes "smolhost"; host = [] }

names_sorted : names ((codes "b", factory) ∷ (codes "a", factory) ∷ []) ≡ codes "a" ∷ codes "b" ∷ []
unfolding names sort_texts text_le
names_sorted = refl

unregister_settled_example :
    lookup (codes "x") (unregister (codes "smallhost") one).0
    ≡ (if text_eq (codes "smallhost") (codes "x") then none else lookup (codes "x") one)
unregister_settled_example = unregister_settled (codes "smallhost") (codes "x") one

abbrev lenient : PlanValidators
lenient = record {
  validate_domain = some (λ t. none);
  validate_node_version = some (λ t. none);
  validate_db_name = some (λ t. none);
}
