-- ===== src/Sshtail/Escape.antt =====
-- services/sshtail/shellescape.go.
use webox.Prelude.{ℕ, [], ◌∷◌, ◌++◌, Option, none, some, if◌then◌else◌, ◌==◌}
use webox.Prelude.Text.{Text, is_empty, contains, contains_any}
use webox.Errors.{Error, sentinel, log_path_invalid}

-- strings.ReplaceAll of a text of one character.
unfoldable pub replace_all : ℕ → Text → Text → Text
replace_all c new [] = []
replace_all c new (d ∷ s) = (if d == c then new else d ∷ []) ++ replace_all c new s

unfoldable pub shell_escape : Text → Text
unfolding replace_all
shell_escape path =
    if is_empty path
    then 39 ∷ 39 ∷ []
    else 39 ∷ replace_all 39 (39 ∷ 92 ∷ 39 ∷ 39 ∷ []) path ++ 39 ∷ []

unfoldable pub validate_log_path : Text → Option Error
validate_log_path path =
    if is_empty path
    then some (sentinel log_path_invalid)
    else if contains_any path (10 ∷ 13 ∷ 9 ∷ 0 ∷ [])
    then some (sentinel log_path_invalid)
    else if contains path (46 ∷ 46 ∷ [])
    then some (sentinel log_path_invalid)
    else none
