-- ===== src/Sshtail/Shell.antt =====
-- How a POSIX shell splits a command into words, and the commands of services/sshtail.
use webox.Prelude.{
  ◌≡◌, refl, sym, ap, subst, ◌∙◌, ℕ, Bool, false, ◌||◌, ◌&&◌, List, [], ◌∷◌, ◌++◌, Option, none,
  some, if◌then◌else◌, ◌==◌, leb, Bool-cases, inl, inr, append_assoc, append-nil, arith,
}
use mathlib.Core.Option as Option
use webox.Prelude.Text.{Text, codes}
use webox.Sshtail.Escape.{replace_all, shell_escape}

pub data Reading : Type 0 where
  bare quoted escaped : Reading

-- A character that stands for itself outside quotes. Others, such as `;` and `$`, make no word.
unfoldable pub is_plain : ℕ → Bool
is_plain c =
    (leb b'a' c && leb c b'z')
    || (leb b'A' c && leb c b'Z')
    || (leb b'0' c && leb c b'9')
    || c == b'-'
    || c == b'_'
    || c == b'.'
    || c == b'/'

abbrev so_far : Option Text → Text
so_far none = []
so_far (some w) = w

abbrev end_word : Option Text → List Text → List Text
end_word none ws = ws
end_word (some w) ws = w ∷ ws

-- The words of a command: a single quote opens a stretch in which only a single quote is special, a
-- backslash outside it keeps the next character. None for a command that is no list of such words.
unfoldable pub words : Reading → Option Text → Text → Option (List Text)
unfolding is_plain
words bare w [] = some (end_word w [])
words quoted w [] = none
words escaped w [] = none
words escaped w (c ∷ s) = words bare (some (so_far w ++ c ∷ [])) s
words quoted w (c ∷ s) =
    let out = words bare w s in
    let on = words quoted (some (so_far w ++ c ∷ [])) s in if c == 39 then out else on
words bare w (c ∷ s) =
    let next = words bare none s in
    let quote = words quoted (some (so_far w)) s in
    let keep = words escaped (some (so_far w)) s in
    let on = words bare (some (so_far w ++ c ∷ [])) s in
    if c == 32
    then Option.map (λ ws. end_word w ws) next
    else if c == 39
    then quote
    else if c == 92
    then keep
    else if is_plain c
    then on
    else none

-- A character inside quotes, and one that is not replaced.
quoted_step :
    (w : Text) (c : ℕ) (s : Text)
    → (c == 39) ≡ false
    → words quoted (some w) (c ∷ s) ≡ words quoted (some (w ++ c ∷ [])) s
unfolding words
quoted_step w c s q =
    ap (λ b. if b then words bare (some w) s else words quoted (some (w ++ c ∷ [])) s) q

kept_step :
    (new : Text) (c : ℕ) (p : Text)
    → (c == 39) ≡ false
    → replace_all 39 new (c ∷ p) ≡ c ∷ replace_all 39 new p
unfolding replace_all
kept_step new c p q = ap (λ b. (if b then new else c ∷ []) ++ replace_all 39 new p) q

-- A text that shell_escape has quoted is read back.
words-replace_all :
    (w p rest : Text)
    → words quoted (some w) (replace_all 39 (39 ∷ 92 ∷ 39 ∷ 39 ∷ []) p ++ 39 ∷ rest)
      ≡ words bare (some (w ++ p)) rest
unfolding words replace_all
words-replace_all w [] rest = rw (append-nil w) refl
words-replace_all w (c ∷ p) rest =
    let ih = words-replace_all (w ++ c ∷ []) p rest in
    let all : words bare (some ((w ++ c ∷ []) ++ p)) rest ≡ words bare (some (w ++ c ∷ p)) rest =
      ap (λ v. words bare (some v) rest) (append_assoc w (c ∷ []) p) in
    elim (Bool-cases (c == 39)) [
      | inl q ↦
          let e : c ≡ 39 = ground (arith, q) in
          subst
            (λ d.
              words quoted (some w) (replace_all 39 (39 ∷ 92 ∷ 39 ∷ 39 ∷ []) (d ∷ p) ++ 39 ∷ rest)
              ≡ words bare (some (w ++ d ∷ p)) rest)
            (sym e)
            (words-replace_all (w ++ 39 ∷ []) p rest
              ∙ ap (λ v. words bare (some v) rest) (append_assoc w (39 ∷ []) p))
      | inr q ↦
          ap (λ r. words quoted (some w) (r ++ 39 ∷ rest))
            (kept_step (39 ∷ 92 ∷ 39 ∷ 39 ∷ []) c p q)
          ∙ quoted_step w c (replace_all 39 (39 ∷ 92 ∷ 39 ∷ 39 ∷ []) p ++ 39 ∷ rest) q
          ∙ ih
          ∙ all
    ]

pub words-shell_escape : (p : Text) → words bare none (shell_escape p) ≡ some (p ∷ [])
unfolding words shell_escape
words-shell_escape [] = refl
words-shell_escape (c ∷ p) = words-replace_all [] (c ∷ p) []

-- The command of a stream: five words, the last of which is the path.
pub words-command :
    (p : Text)
    → words bare none (codes "tail -n 0 -f " ++ shell_escape p)
      ≡ some (codes "tail" ∷ codes "-n" ∷ codes "0" ∷ codes "-f" ∷ p ∷ [])
unfolding words is_plain
words-command p =
    ap
      (λ (o : Option (List Text)).
        Option.map (λ ws. codes "tail" ∷ ws)
          (Option.map (λ ws. codes "-n" ∷ ws)
            (Option.map (λ ws. codes "0" ∷ ws) (Option.map (λ ws. codes "-f" ∷ ws) o))))
      (words-shell_escape p)
