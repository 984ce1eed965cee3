-- ===== src/Smallhost/Clean.antt =====
-- stripAndNormalize of providers/smallhost/parsers.go. Texts are lists of bytes here.
pub mod Laws
use webox.Prelude.{
  ◌^◌, ℕ, zero, suc, ◌+◌, Bool, true, false, ◌&&◌, ◌||◌, [], ◌∷◌, ◌==◌, leb, ltb, if◌then◌else◌,
  neg, length,
}
use webox.Prelude.Text.{Text}
use webox.Prelude.Words.{is_lower, is_upper, is_digit}
use webox.Errors.{sentinel, wrap, output_too_large, unknown_output_format, Result, ok, err}

abbrev pub max_output_size : ℕ
max_output_size = 2 ^ 20

-- [0-9;]*[A-Za-z]: the length of the match, 0 for none.
params_length : Text → ℕ
params_length [] = 0
params_length (c ∷ s) =
    let rest = params_length s in
    if is_digit c || c == b';'
    then (if rest == 0 then 0 else suc rest)
    else if is_lower c || is_upper c
    then 1
    else 0

-- ansiEscapeRegex at the beginning of a text.
unfoldable pub escape_length : Text → ℕ
unfolding params_length
escape_length [] = 0
escape_length (c ∷ []) = 0
escape_length (c ∷ d ∷ s) =
    let n = params_length s in if c == 27 && d == b'[' && neg (n == 0) then 2 + n else 0

-- ReplaceAll of the escape sequences by nothing; the number counts the bytes of a match to skip.
unfoldable pub strip_escapes : ℕ → Text → Text
unfolding escape_length
strip_escapes n [] = []
strip_escapes (suc n) (c ∷ s) = strip_escapes n s
strip_escapes zero (c ∷ s) = elim (escape_length (c ∷ s)) [
  | zero ↦ c ∷ strip_escapes 0 s
  | suc n ↦ strip_escapes n s
]

-- bytes.ReplaceAll of CR LF by LF.
unfoldable pub replace_crlf : Text → Text
replace_crlf [] = []
replace_crlf (c ∷ []) = c ∷ []
replace_crlf (c ∷ d ∷ s) = elim (c == 13 && d == 10) [
  | true ↦ 10 ∷ replace_crlf s
  | false ↦ c ∷ replace_crlf (d ∷ s)
]

-- bytes.ReplaceAll of CR by LF.
unfoldable pub replace_cr : Text → Text
replace_cr [] = []
replace_cr (c ∷ s) = (if c == 13 then 10 else c) ∷ replace_cr s

-- The loop over the bytes that are left.
unfoldable pub has_unprintable : Text → Bool
has_unprintable [] = false
has_unprintable (c ∷ s) =
    if c == 10 || c == 9
    then has_unprintable s
    else if ltb c 0x20 || c == 0x7f || leb 0x80 c
    then true
    else has_unprintable s

unfoldable pub strip_and_normalize : Text → Result Text
unfolding strip_escapes replace_crlf replace_cr has_unprintable
strip_and_normalize raw =
    let clean : Text = replace_cr (replace_crlf (strip_escapes 0 raw)) in
    if ltb max_output_size (length raw)
    then err (wrap (sentinel output_too_large))
    else if has_unprintable clean
    then err (wrap (sentinel unknown_output_format))
    else ok clean
