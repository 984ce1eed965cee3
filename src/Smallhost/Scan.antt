-- ===== src/Smallhost/Scan.antt =====
-- The regular expressions of providers/smallhost/parsers.go, on texts that were cleaned: each is
-- matched from left to right, where a step takes as much as it can and no shorter take could match.
pub mod Visible
use webox.Prelude.{
  ℕ, suc, ◌+◌, ◌-◌, Bool, true, false, ◌&&◌, ◌||◌, List, [], ◌∷◌, Option, none, some, ◌==◌, leb,
  if◌then◌else◌, neg, length,
}
use webox.Prelude.Text.{Text, codes, is_empty, text_eq}
use webox.Prelude.Words.{is_lower, is_upper, is_digit, is_blank, all, span}
use webox.Providers.{Subdomain}

infixl 1 ◌>>=◌
abbrev pub ◌>>=◌ {ℓ κ} : {A : Type ℓ} {B : Type κ} → Option A → (A → Option B) → Option B
none >>= f = none
some a >>= f = f a

abbrev pub found_if {ℓ} : {A : Type ℓ} → Bool → A → Option A
found_if b a = if b then some a else none

-- The text behind a literal.
unfoldable pub literal : Text → Text → Option Text
literal [] s = some s
literal (p ∷ ps) [] = none
literal (p ∷ ps) (c ∷ s) = if p == c then literal ps s else none

-- \S+
unfoldable pub word : Text → Option (Text × Text)
unfolding span
word s = let w = span (λ c. neg (is_blank c)) s in found_if (neg (is_empty w.0)) w

-- \s+
unfoldable pub blanks : Text → Option Text
unfolding span
blanks s = let w = span is_blank s in found_if (neg (is_empty w.0)) w.1

-- wwwAddOKRegex
unfoldable pub match_www_add : Text → Option (Text × Text)
unfolding literal word all
match_www_add line = do
  rest ← literal (codes "Added domain ") line
  domain ← word rest
  rest ← literal (codes " with nodejs ") domain.1
  node ← word rest
  found_if (all is_blank node.1) (domain.0, node.0)

abbrev pub is_row_type : Text → Bool
is_row_type t = text_eq t (codes "nodejs") || text_eq t (codes "static") || text_eq t (codes "php")

-- wwwListLineRegex, and the row that parseWwwList makes of a match.
unfoldable pub match_www_row : Text → Option Subdomain
unfolding word blanks all
match_www_row line = do
  domain ← word line
  rest ← blanks domain.1
  type ← word rest
  rest ← found_if (is_row_type type.0) type.1
  rest ← blanks rest
  node ← word rest
  found_if (all is_blank node.1) (record {
    domain = domain.0;
    type = type.0;
    node_version = if text_eq node.0 (codes "-") then [] else node.0;
  })

-- \w, by which \b is decided
abbrev is_word_code : ℕ → Bool
is_word_code c = is_lower c || is_upper c || is_digit c || c == b'_'

-- \d{1,3}, before a code that is no digit
octet : Text → Option Text
unfolding span
octet s = let d = span is_digit s in found_if (leb 1 (length d.0) && leb (length d.0) 3) d.1

dot : Text → Option Text
unfolding literal
dot = literal (b'.' ∷ [])

-- \b behind a digit
ends_word : Text → Bool
ends_word [] = true
ends_word (c ∷ s) = neg (is_word_code c)

abbrev is_found {ℓ} : {A : Type ℓ} → Option A → Bool
is_found none = false
is_found (some a) = true

ipv4_here : Text → Bool
unfolding octet dot ends_word
ipv4_here s = is_found do
  rest ← octet s
  rest ← dot rest
  rest ← octet rest
  rest ← dot rest
  rest ← octet rest
  rest ← dot rest
  rest ← octet rest
  found_if (ends_word rest) rest

-- ipv4Regex.MatchString: the address may stand anywhere between two word boundaries. The flag says
-- that a word code stands before the text.
ipv4_from : Bool → Text → Bool
unfolding ipv4_here
ipv4_from after [] = false
ipv4_from after (c ∷ s) = (neg after && ipv4_here (c ∷ s)) || ipv4_from (is_word_code c) s

unfoldable pub has_ipv4 : Text → Bool
unfolding ipv4_from
has_ipv4 = ipv4_from false

-- \s*$ with the flag m
line_ends : Text → Bool
line_ends [] = true
line_ends (c ∷ s) = if c == 10 then true else if is_blank c then line_ends s else false

-- dbUserRegex and dbPassRegex at the beginning of a line
field_here : Text → Text → Option Text
unfolding literal blanks word line_ends
field_here name s = do
  rest ← literal name s
  rest ← blanks rest
  value ← word rest
  found_if (line_ends value.1) value.0

abbrev or_else {ℓ} : {A : Type ℓ} → Option A → Option A → Option A
or_else none p = p
or_else (some a) p = some a

-- The first match; the flag says that a line begins here.
unfoldable pub find_field : Text → Bool → Text → Option Text
unfolding field_here
find_field name starts [] = none
find_field name starts (c ∷ s) =
    or_else (if starts then field_here name (c ∷ s) else none) (find_field name (c == 10) s)
