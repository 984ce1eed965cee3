-- ===== src/Prelude/Encoding.antt =====
-- An encoding of lists of texts, for witnesses that need a working JSON: each text as its codes plus
-- one, behind which stands a zero.
use webox.Prelude.{◌≡◌, refl, ap, ◌∙◌, ℕ, zero, suc, List, [], ◌∷◌, ◌++◌}
use webox.Prelude.Text.{Text}

abbrev put_word : Text → Text → Text
put_word [] rest = 0 ∷ rest
put_word (c ∷ w) rest = suc c ∷ put_word w rest

abbrev pub flatten_words : List Text → Text
flatten_words [] = []
flatten_words (w ∷ ws) = put_word w (flatten_words ws)

abbrev push_word : ℕ → List Text → List Text
push_word c [] = (c ∷ []) ∷ []
push_word c (w ∷ ws) = (c ∷ w) ∷ ws

abbrev pub words_of : Text → List Text
words_of [] = []
words_of (zero ∷ s) = [] ∷ words_of s
words_of (suc c ∷ s) = push_word c (words_of s)

words_of-put_word : (w rest : Text) → words_of (put_word w rest) ≡ w ∷ words_of rest
words_of-put_word [] rest = refl
words_of-put_word (c ∷ w) rest = ap (push_word c) (words_of-put_word w rest)

put_word-append : (w rest t : Text) → put_word w rest ++ t ≡ put_word w (rest ++ t)
put_word-append [] rest t = refl
put_word-append (c ∷ w) rest t = ap (◌∷◌ (suc c)) (put_word-append w rest t)

-- The texts are read back, whatever stands behind them.
pub words_of-flatten_words :
    (ws : List Text) (t : Text) → words_of (flatten_words ws ++ t) ≡ ws ++ words_of t
words_of-flatten_words [] t = refl
words_of-flatten_words (w ∷ ws) t =
    ap words_of (put_word-append w (flatten_words ws) t)
    ∙ words_of-put_word w (flatten_words ws ++ t)
    ∙ ap (◌∷◌ w) (words_of-flatten_words ws t)
