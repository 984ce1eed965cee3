-- ===== src/Wizard/Workflow.antt =====
-- wizard/workflow_validate.go: the checks of values that go into a deploy workflow, and of the
-- rendered text.
use webox.Prelude.{
  ◌≡◌, refl, ◌↔◌, ℕ, Bool, true, false, ◌&&◌, ◌||◌, List, [], ◌∷◌, Option, none, some,
  if◌then◌else◌, neg, ◌==◌, arith, All, drop,
}
use webox.Prelude.Text.{Text, codes, is_empty, has_prefix, contains, contains_any, trim_space}
use webox.Errors.{Error, sentinel, wrap, invalid_plan}

abbrev refusal : Option Error
refusal = some (wrap (sentinel invalid_plan))

unfoldable pub validate_workflow_field : Text → Option Error
validate_workflow_field value =
    if contains value (codes "${{") || contains value (codes "}}")
    then refusal
    else if contains_any value (b'\r' ∷ b'\n' ∷ b'`' ∷ []) || contains value (codes "$(")
    then refusal
    else none

abbrev pub required : List Text
required =
    codes "name: webox deploy"
    ∷ codes "workflow_dispatch:"
    ∷ codes "rsync"
    ∷ codes "--delete"
    ∷ codes "--exclude='.env'"
    ∷ codes "--exclude='node_modules/'"
    ∷ codes "stat -c"
    ∷ []

unfoldable pub lacks_needle : Text → List Text → Bool
lacks_needle rendered [] = false
lacks_needle rendered (needle ∷ ns) = neg (contains rendered needle) || lacks_needle rendered ns

-- strings.Split by a newline.
abbrev prepend : ℕ → List Text → List Text
prepend c [] = (c ∷ []) ∷ []
prepend c (l ∷ ls) = (c ∷ l) ∷ ls

unfoldable pub split_lines : Text → List Text
split_lines [] = [] ∷ []
split_lines (c ∷ s) = let rest = split_lines s in if c == b'\n' then [] ∷ rest else prepend c rest

-- The lines that the loop checks.
unfoldable pub is_uses_line : Text → Bool
is_uses_line line =
    has_prefix (trim_space line) (codes "uses:") || has_prefix (trim_space line) (codes "- uses:")

-- strings.TrimPrefix by `- `
abbrev pub normalized : Text → Text
normalized line =
    let trimmed = trim_space line in
    if has_prefix trimmed (codes "- ") then drop 2 trimmed else trimmed

-- `matches` is the match of pinnedUsesPattern by package regexp.
module _ (matches : Text → Bool) where
  unfoldable pub unpinned : List Text → Bool
  unpinned [] = false
  unpinned (line ∷ ls) = (is_uses_line line && neg (matches (normalized line))) || unpinned ls

  unfoldable pub validate_workflow_rendered : Text → Option Error
  unfolding unpinned lacks_needle
  validate_workflow_rendered rendered =
      if is_empty (trim_space rendered)
      then refusal
      else if lacks_needle rendered required
      then refusal
      else if unpinned (split_lines rendered)
      then refusal
      else none

  unpinned_iff :
      (ls : List Text)
      → (unpinned ls ≡ false) ↔ All (λ l. is_uses_line l ≡ true → matches (normalized l) ≡ true) ls
  unfolding unpinned
  unpinned_iff [] = (λ h. tt, λ h. refl)
  unpinned_iff (l ∷ ls) = ground (arith, unpinned_iff ls)

lacks_needle_iff :
    (rendered : Text) (ns : List Text)
    → (lacks_needle rendered ns ≡ false) ↔ All (λ n. contains rendered n ≡ true) ns
unfolding lacks_needle
lacks_needle_iff rendered [] = (λ h. tt, λ h. refl)
lacks_needle_iff rendered (n ∷ ns) = ground (arith, lacks_needle_iff rendered ns)

-- A rendered workflow is accepted exactly when it has more than white space, contains each required
-- fragment, and every line with `uses:` is one that the pattern of pinned actions matches.
pub validate_workflow_rendered_iff :
    (matches : Text → Bool) (rendered : Text)
    → (validate_workflow_rendered matches rendered ≡ none) ↔ (
        (is_empty (trim_space rendered) ≡ false)
        × All (λ n. contains rendered n ≡ true) required
        × All (λ l. is_uses_line l ≡ true → matches (normalized l) ≡ true) (split_lines rendered))
unfolding validate_workflow_rendered
validate_workflow_rendered_iff matches rendered =
    ground (arith, lacks_needle_iff rendered required, unpinned_iff matches (split_lines rendered))

-- A field value is accepted exactly when it holds no GitHub expression, no line break or backtick,
-- and no command substitution.
pub validate_workflow_field_iff :
    (value : Text)
    → (validate_workflow_field value ≡ none) ↔ (
        (contains value (codes "${{") ≡ false)
        × (contains value (codes "}}") ≡ false)
        × (contains_any value (b'\r' ∷ b'\n' ∷ b'`' ∷ []) ≡ false)
        × (contains value (codes "$(") ≡ false))
unfolding validate_workflow_field
validate_workflow_field_iff value = ground arith
