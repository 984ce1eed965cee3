-- ===== src/Smallhost/Paths.antt =====
-- providers/smallhost/paths.go, and the two other validators (methods.go).
pub mod Accepted
pub mod Segments
use webox.Prelude.{
  ◌≡◌, ℕ, zero, suc, Bool, true, false, ◌&&◌, ◌||◌, List, [], ◌∷◌, ◌++◌, Option, none, some, ◌==◌,
  leb, ltb, if◌then◌else◌, neg, length,
}
use webox.Prelude.Text.{Text, codes, text_eq, is_empty, trim_space}
use webox.Prelude.Words.{is_lower, is_upper, is_digit, all, split, ends_with, byte_length}
use webox.Errors.{
  Error, sentinel, wrap, invalid_domain, invalid_user, invalid_db_name, invalid_node_version,
  is_some,
}

abbrev pub domains_root : Text
domains_root = codes "/usr/home"

abbrev pub subdir_nodejs : Text
subdir_nodejs = codes "public_nodejs"

abbrev pub subdir_public : Text
subdir_public = codes "public"

abbrev pub subdir_logs : Text
subdir_logs = codes "logs"

abbrev pub env_filename : Text
env_filename = codes ".env"

abbrev pub subdir_storage_img : Text
subdir_storage_img = codes "uploads"

abbrev pub max_domain_length : ℕ
max_domain_length = 253

abbrev pub is_alnum : ℕ → Bool
is_alnum c = is_lower c || is_digit c

abbrev pub is_label_code : ℕ → Bool
is_label_code c = is_alnum c || c == b'-'

-- [a-z0-9-]{0,n}[a-z0-9]$
label_tail : ℕ → Text → Bool
label_tail n [] = false
label_tail n (c ∷ []) = is_alnum c
label_tail zero (c ∷ d ∷ s) = false
label_tail (suc n) (c ∷ d ∷ s) = is_label_code c && label_tail n (d ∷ s)

-- domainLabelPattern
unfoldable pub label_matches : Text → Bool
unfolding label_tail
label_matches [] = false
label_matches (c ∷ s) = is_alnum c && (is_empty s || label_tail 61 s)

abbrev pub is_user_code : ℕ → Bool
is_user_code c = is_alnum c || c == b'_' || c == b'-'

-- userPattern
unfoldable pub user_matches : Text → Bool
unfolding all
user_matches s = leb 1 (length s) && leb (length s) 32 && all is_user_code s

-- The loop over the bytes of the domain.
unfoldable pub bad_byte : Text → Bool
bad_byte [] = false
bad_byte (c ∷ s) =
    if leb c 0x20 || c == 0x7f then true else if c == b'/' || c == b'\\' then true else bad_byte s

-- The loop over the labels.
unfoldable pub bad_label : List Text → Bool
unfolding label_matches
bad_label [] = false
bad_label (l ∷ ls) =
    if text_eq l (codes "..") then true else if neg (label_matches l) then true else bad_label ls

unfoldable pub validate_domain : Text → Option Error
unfolding bad_byte bad_label split trim_space
validate_domain domain =
    let refused : Option Error = some (wrap (sentinel invalid_domain)) in
    if is_empty (trim_space domain)
    then refused
    else if neg (text_eq (trim_space domain) domain)
    then refused
    else if ltb max_domain_length (byte_length domain)
    then refused
    else if bad_byte domain
    then refused
    else if bad_label (split b'.' domain)
    then refused
    else none

unfoldable pub validate_user : Text → Option Error
unfolding user_matches
validate_user user =
    if is_empty user
    then some (wrap (sentinel invalid_user))
    else if neg (user_matches user)
    then some (wrap (sentinel invalid_user))
    else none

abbrev pub is_db_code : ℕ → Bool
is_db_code c = is_alnum c || c == b'_'

-- dbNamePattern
unfoldable pub db_name_matches : Text → Bool
unfolding all
db_name_matches s = leb 1 (length s) && leb (length s) 32 && all is_db_code s

unfoldable pub validate_db_name : Text → Option Error
unfolding db_name_matches
validate_db_name name =
    if is_empty name
    then some (wrap (sentinel invalid_db_name))
    else if neg (db_name_matches name)
    then some (wrap (sentinel invalid_db_name))
    else none

abbrev pub is_version_code : ℕ → Bool
is_version_code c = is_lower c || is_upper c || is_digit c || c == b'.' || c == b'_' || c == b'-'

-- nodeVersionPattern
unfoldable pub node_version_matches : Text → Bool
unfolding all
node_version_matches s = leb 1 (length s) && leb (length s) 16 && all is_version_code s

unfoldable pub validate_node_version : Text → Option Error
unfolding node_version_matches
validate_node_version version =
    if is_empty version
    then some (wrap (sentinel invalid_node_version))
    else if neg (node_version_matches version)
    then some (wrap (sentinel invalid_node_version))
    else none

-- The loop of joinPath behind its first segment.
unfoldable pub join_rest : Text → List Text → Text
unfolding ends_with
join_rest path [] = path
join_rest path (s ∷ ss) =
    join_rest ((if ends_with b'/' path then path else path ++ b'/' ∷ []) ++ s) ss

unfoldable pub join_path : List Text → Text
unfolding join_rest
join_path [] = []
join_path (s ∷ ss) = join_rest s ss

-- The four paths differ in the segments behind the domain.
unfoldable pub path_under : Text → List Text → Text → Text
unfolding validate_domain validate_user join_path
path_under user rest domain =
    if is_some (validate_domain domain) || is_some (validate_user user)
    then []
    else join_path (domains_root ∷ user ∷ codes "domains" ∷ domain ∷ rest)

unfoldable pub get_deploy_path : Text → Text → Text
unfolding path_under
get_deploy_path user = path_under user (subdir_nodejs ∷ subdir_public ∷ [])

unfoldable pub get_log_path : Text → Text → Text
unfolding path_under
get_log_path user = path_under user (subdir_logs ∷ [])

unfoldable pub env_path : Text → Text → Text
unfolding path_under
env_path user = path_under user (subdir_nodejs ∷ env_filename ∷ [])

unfoldable pub storage_path : Text → Text → Text
unfolding path_under
storage_path user = path_under user (subdir_nodejs ∷ subdir_public ∷ subdir_storage_img ∷ [])
