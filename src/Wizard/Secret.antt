-- ===== src/Wizard/Secret.antt =====
-- wizard/rollback.go: the pattern of secret-shaped values, as a matcher. A `(?i)` pattern compares
-- characters after simple case folding; `\b` and `\s` are the ASCII classes.
use webox.Prelude.{
  ℕ, ◌+◌, ◌≡◌, refl, Bool, true, false, ◌&&◌, ◌||◌, [], ◌∷◌, ◌++◌, Option, none, some, leb, ◌==◌,
  if◌then◌else◌, neg,
}
use webox.Prelude.Text.{Text, codes, is_empty}

-- The Kelvin sign and the long s fold to `k` and `s`.
fold : ℕ → ℕ
fold c =
    if leb b'A' c && leb c b'Z'
    then c + 32
    else if c == 0x212a
    then b'k'
    else if c == 0x17f
    then b's'
    else c

is_letter : ℕ → Bool
unfolding fold
is_letter c = leb b'a' (fold c) && leb (fold c) b'z'

unfoldable pub is_alnum : ℕ → Bool
unfolding is_letter
is_alnum c = is_letter c || (leb b'0' c && leb c b'9')

is_word : ℕ → Bool
is_word c =
    (leb b'a' c && leb c b'z')
    || (leb b'A' c && leb c b'Z')
    || (leb b'0' c && leb c b'9')
    || c == b'_'

-- What stands behind a literal, which is given in lower case.
literal : Text → Text → Option Text
unfolding fold
literal [] s = some s
literal (p ∷ ps) [] = none
literal (p ∷ ps) (c ∷ s) = if fold c == p then literal ps s else none

first_is : (ℕ → Bool) → Text → Bool
first_is p [] = false
first_is p (c ∷ s) = p c

-- A literal and one letter or digit.
token : Text → Text → Bool
unfolding literal first_is is_alnum
token p s = elim (literal p s) [ none ↦ false | some rest ↦ first_is is_alnum rest ]

skip_space : Text → Text
skip_space [] = []
skip_space (c ∷ s) =
    if c == 9 || c == 10 || c == 12 || c == 13 || c == 32 then skip_space s else c ∷ s

-- A literal, spaces and an equals sign.
assignment : Text → Text → Bool
unfolding literal first_is skip_space
assignment p s = elim (literal p s) [
  | none ↦ false
  | some rest ↦ first_is (λ c. c == b'=') (skip_space rest)
]

label_here : Text → Bool
unfolding literal
label_here s = elim (literal (codes "private key") s) [ none ↦ false | some _ ↦ true ]

key_label : Text → Bool
unfolding label_here is_letter
key_label [] = false
key_label (c ∷ s) = label_here (c ∷ s) || ((is_letter c || c == 32) && key_label s)

private_key : Text → Bool
unfolding literal key_label
private_key s = elim (literal (codes "begin ") s) [ none ↦ false | some rest ↦ key_label rest ]

-- `\bsk-`: exactly one of the characters around the place is a word character.
word_boundary : Bool → Text → Bool
unfolding first_is is_word
word_boundary before s = if before then neg (first_is is_word s) else first_is is_word s

-- A match that begins here; `before` says whether a word character stands in front.
match_here : Bool → Text → Bool
unfolding token word_boundary private_key assignment
match_here before s =
    token (codes "ghp_") s
    || token (codes "ghs_") s
    || token (codes "github_pat_") s
    || (word_boundary before s && token (codes "sk-") s)
    || private_key s
    || assignment (codes "password") s
    || assignment (codes "passwd") s

match_from : Bool → Text → Bool
match_from before [] = match_here before []
match_from before (c ∷ s) = match_here before (c ∷ s) || match_from (is_word c) s

-- isSecretShaped
unfoldable pub is_secret_shaped : Text → Bool
unfolding match_from match_here
is_secret_shaped v = if is_empty v then false else match_from false v

or_true : (b : Bool) → (b || true) ≡ true
or_true true = refl
or_true false = refl

match_from-suffix :
    (before : Bool) (front back : Text)
    → ((b : Bool) → match_from b back ≡ true)
    → match_from before (front ++ back) ≡ true
unfolding match_from
match_from-suffix before [] back h = h before
match_from-suffix before (c ∷ front) back h =
    rw (match_from-suffix (is_word c) front back h)
      (or_true (match_here before (c ∷ front ++ back)))

not_empty : (s : Text) → match_from false s ≡ true → is_secret_shaped s ≡ true
unfolding match_from is_secret_shaped match_here token literal word_boundary private_key assignment
    first_is
not_empty [] h = cc
not_empty (c ∷ s) h = h

-- The tokens that the pattern knows; GitHub's prefixes gho_, ghu_ and ghr_ are not in it.
pub data GitHubToken : Type 0 where
  personal server fine_grained : GitHubToken

abbrev pub token_prefix : GitHubToken → Text
token_prefix personal = codes "ghp_"
token_prefix server = codes "ghs_"
token_prefix fine_grained = codes "github_pat_"

match_here-token :
    (t : GitHubToken) (before : Bool) (c : ℕ) (rest : Text)
    → is_alnum c ≡ true
    → match_here before (token_prefix t ++ c ∷ rest) ≡ true
unfolding match_here token literal first_is fold
match_here-token personal before c rest h = rw h
match_here-token server before c rest h = rw h
match_here-token fine_grained before c rest h = rw h

match_from-here :
    (before : Bool) (s : Text) → match_here before s ≡ true → match_from before s ≡ true
unfolding match_from
match_from-here before [] h = h
match_from-here before (c ∷ s) h = rw h

-- A GitHub token with one of the prefixes ghp_, ghs_ and github_pat_ and a letter or a digit behind it
-- is recognised in any surrounding text.
pub is_secret_shaped-token :
    (t : GitHubToken) (front : Text) (c : ℕ) (rest : Text)
    → is_alnum c ≡ true
    → is_secret_shaped (front ++ (token_prefix t ++ c ∷ rest)) ≡ true
is_secret_shaped-token t front c rest h = not_empty _ (
    match_from-suffix false front (token_prefix t ++ c ∷ rest)
      (λ b. match_from-here b _ (match_here-token t b c rest h)))
