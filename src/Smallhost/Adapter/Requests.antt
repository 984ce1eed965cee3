-- ===== src/Smallhost/Adapter/Requests.antt =====
-- Any sequence of calls of the adapter.
use webox.Prelude.{◌≡◌, List, [], ◌∷◌, refl}
use webox.Prelude.Int.{ℤ}
use webox.Prelude.Text.{Text, codes}
use webox.Prelude.Words.{all}
use webox.Errors.{ok}
use webox.Smallhost.Adapter.{
  Provider, exec, create_subdomain, restart_node_app, list_subdomains, remove_subdomain, account_ip,
  setup_ssl, remove_ssl, create_database, remove_database, tail_log, check_status,
}
use webox.Smallhost.Adapter.Commands.{IsPlain}
use webox.Smallhost.Adapter.Sent.{
  create_subdomain-keeps, restart_node_app-keeps, remove_subdomain-keeps, list_subdomains-keeps,
  create_database-keeps, remove_database-keeps, tail_log-keeps, setup_ssl-keeps, remove_ssl-keeps,
}

-- The methods of the adapter with their arguments.
pub data Request : Type 0 where
  status list : Request
  create remove_db create_db : Text → Text → Request
  restart remove secure unsecure : Text → Request
  tail : Text → ℤ → Request

module _ {W : Type 0} where
  abbrev pub perform : Provider W → Request → W → W
  perform p status w = (check_status p w).0
  perform p list w = (list_subdomains p w).0
  perform p (create domain version) w = (create_subdomain p domain version w).0
  perform p (remove_db kind name) w = (remove_database p kind name w).0
  perform p (create_db kind name) w = (create_database p kind name w).0
  perform p (restart domain) w = (restart_node_app p domain w).0
  perform p (remove domain) w = (remove_subdomain p domain w).0
  perform p (secure domain) w = (setup_ssl p domain w).0
  perform p (unsecure domain) w = (remove_ssl p domain w).0
  perform p (tail domain lines) w = (tail_log p domain lines w).0

  abbrev pub perform_all : Provider W → List Request → W → W
  perform_all p [] w = w
  perform_all p (r ∷ rs) w = perform_all p rs (perform p r w)

module _ {W : Type 0} (p : Provider W) (P : W → Type 0)
    (keeps : (cmd : Text) (w : W) → IsPlain cmd → P w → P (exec p cmd w).0)
    (now_keeps : (w : W) → P w → P (p.now w).0)
    (plain_ip : (w : W) (ip : Text) → (account_ip p w).1 ≡ ok ip → IsPlain ip) where
  check_status-keeps : (w : W) → P w → P (check_status p w).0
  unfolding check_status all
  check_status-keeps w h =
      now_keeps _ (keeps (codes "devil --version") (p.now w).0 refl (now_keeps w h))

  perform-keeps : (r : Request) (w : W) → P w → P (perform p r w)
  perform-keeps status w = check_status-keeps w
  perform-keeps list w = list_subdomains-keeps p P keeps w
  perform-keeps (create domain version) w = create_subdomain-keeps p P keeps domain version w
  perform-keeps (remove_db kind name) w = remove_database-keeps p P keeps kind name w
  perform-keeps (create_db kind name) w = create_database-keeps p P keeps kind name w
  perform-keeps (restart domain) w = restart_node_app-keeps p P keeps domain w
  perform-keeps (remove domain) w = remove_subdomain-keeps p P keeps domain w
  perform-keeps (secure domain) w = setup_ssl-keeps p P keeps plain_ip domain w
  perform-keeps (unsecure domain) w = remove_ssl-keeps p P keeps plain_ip domain w
  perform-keeps (tail domain lines) w = tail_log-keeps p P keeps domain lines w

  -- A property of the world that the clock keeps, and every command made of letters, digits, spaces
  -- and the codes . - _ / keeps, is kept by every sequence of calls of the adapter, whatever their
  -- arguments, the user and the answers of the host, if each address that the host gives for the
  -- account is made of such codes: the adapter sends no other command.
  pub perform_all-keeps : (rs : List Request) (w : W) → P w → P (perform_all p rs w)
  perform_all-keeps [] w h = h
  perform_all-keeps (r ∷ rs) w h = perform_all-keeps rs (perform p r w) (perform-keeps r w h)
