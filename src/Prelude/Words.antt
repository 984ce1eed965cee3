-- ===== src/Prelude/Words.antt =====
-- Texts cut into pieces: strings.Split, strings.Fields, strings.Join, strings.HasSuffix,
-- strings.ToLower on ASCII text, and the classes of characters of package regexp.
pub mod Pieces
use webox.Prelude.{
  ℕ, suc, ◌+◌, Bool, true, false, ◌&&◌, ◌||◌, List, [], ◌∷◌, ◌++◌, ◌==◌, leb, ltb, if◌then◌else◌,
}
use webox.Prelude.Text.{Text, is_space}

abbrev pub is_lower : ℕ → Bool
is_lower c = leb b'a' c && leb c b'z'

abbrev pub is_upper : ℕ → Bool
is_upper c = leb b'A' c && leb c b'Z'

abbrev pub is_digit : ℕ → Bool
is_digit c = leb b'0' c && leb c b'9'

-- \s of package regexp
abbrev pub is_blank : ℕ → Bool
is_blank c = c == 9 || c == 10 || c == 12 || c == 13 || c == 32

-- A test that holds of every code.
unfoldable pub all : (ℕ → Bool) → Text → Bool
all p [] = true
all p (c ∷ s) = p c && all p s

abbrev push_code : ℕ → List Text → List Text
push_code c [] = (c ∷ []) ∷ []
push_code c (t ∷ ts) = (c ∷ t) ∷ ts

-- strings.Split at a separator of one code.
unfoldable pub split : ℕ → Text → List Text
split sep [] = [] ∷ []
split sep (c ∷ s) = if c == sep then [] ∷ split sep s else push_code c (split sep s)

-- strings.Join with a separator of one code.
unfoldable pub join : ℕ → List Text → Text
join sep [] = []
join sep (t ∷ []) = t
join sep (t ∷ u ∷ ts) = t ++ sep ∷ join sep (u ∷ ts)

-- The text up to the first code that fails the test, and the rest.
unfoldable pub span : (ℕ → Bool) → Text → Text × Text
span p [] = ([], [])
span p (c ∷ s) = let rest = span p s in if p c then (c ∷ rest.0, rest.1) else ([], c ∷ s)

-- strings.Fields, with the word that is being read.
abbrev close_field : Text → List Text → List Text
close_field [] ts = ts
close_field (c ∷ s) ts = (c ∷ s) ∷ ts

fields_from : Text → Text → List Text
unfolding is_space
fields_from word [] = close_field word []
fields_from word (c ∷ s) =
    if is_space c then close_field word (fields_from [] s) else fields_from (word ++ c ∷ []) s

unfoldable pub fields : Text → List Text
unfolding fields_from
fields = fields_from []

-- strings.HasSuffix of one code.
unfoldable pub ends_with : ℕ → Text → Bool
ends_with c [] = false
ends_with c (d ∷ []) = d == c
ends_with c (d ∷ e ∷ s) = ends_with c (e ∷ s)

-- strings.ToLower of an ASCII text.
unfoldable pub to_lower : Text → Text
to_lower [] = []
to_lower (c ∷ s) = (if is_upper c then c + 32 else c) ∷ to_lower s

-- The bytes of a code point in UTF-8, so that `byte_length` is Go's len.
abbrev code_bytes : ℕ → ℕ
code_bytes c = if ltb c 0x80 then 1 else if ltb c 0x800 then 2 else if ltb c 0x10000 then 3 else 4

unfoldable pub byte_length : Text → ℕ
byte_length [] = 0
byte_length (c ∷ s) = code_bytes c + byte_length s
