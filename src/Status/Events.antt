-- ===== src/Status/Events.antt =====
-- status/ttl.go: which key prefixes a domain operation makes invalid; Cache.InvalidateEvent.
use webox.Prelude.{ℕ, ◌+◌, List, [], ◌∷◌}
use webox.Prelude.Text.{Text, codes}
use webox.Status.Cache.{Entry, invalidate}

abbrev pub prefix_http : Text
prefix_http = codes "http:"

abbrev pub prefix_ssh_node : Text
prefix_ssh_node = codes "ssh:node:"

abbrev pub prefix_ssl : Text
prefix_ssl = codes "ssl:"

abbrev pub prefix_github_last_deploy : Text
prefix_github_last_deploy = codes "gh:lastDeploy:"

abbrev pub prefix_github_steps : Text
prefix_github_steps = codes "gh:steps:"

-- An Event is a string; `unlisted` is one that is none of the constants.
pub data Event : Type 0 where
  restart deploy remove_subdomain change_node_version setup_ssl renew_ssl remove_ssl : Event
  unlisted : Text → Event

unfoldable pub prefixes_for_event : Event → List Text
prefixes_for_event restart = prefix_http ∷ []
prefixes_for_event deploy = prefix_http ∷ prefix_github_last_deploy ∷ prefix_github_steps ∷ []
prefixes_for_event remove_subdomain = prefix_http ∷ []
prefixes_for_event change_node_version = prefix_ssh_node ∷ []
prefixes_for_event setup_ssl = prefix_ssl ∷ []
prefixes_for_event renew_ssl = prefix_ssl ∷ []
prefixes_for_event remove_ssl = prefix_ssl ∷ []
prefixes_for_event (unlisted e) = []

module _ {Any : Type 0} where
  unfoldable pub invalidate_all : List Text → List (Text × Entry Any) → List (Text × Entry Any) × ℕ
  invalidate_all [] m = (m, 0)
  invalidate_all (prefix ∷ ps) m =
      let (kept, removed) = invalidate prefix m in
      let (kept', more) = invalidate_all ps kept in (kept', removed + more)

  unfoldable pub invalidate_event : Event → List (Text × Entry Any) → List (Text × Entry Any) × ℕ
  unfolding prefixes_for_event invalidate_all
  invalidate_event event m = invalidate_all (prefixes_for_event event) m
