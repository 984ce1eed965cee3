-- ===== src/Smallhost/Parsers/Printed.antt =====
-- The output of `devil www list` for some rows, and the match of one of its lines.
use webox.Prelude.{
  ℕ, zero, suc, Bool, ◌∙◌, ◌≡◌, refl, sym, ap, subst, append_assoc, ◌⊎◌, inl, inr, true, false,
  ◌||◌, List, [], ◌∷◌, ◌++◌, some, arith, if◌then◌else◌, ◌==◌, Bool-cases,
}
use webox.Prelude.Text.{Text, codes, text_eq, text_eq_sound, is_empty, trim_space}
use webox.Prelude.Words.{all, span}
use webox.Prelude.Words.Pieces.{all-append, all_mono}
use webox.Providers.{Subdomain}
use webox.Smallhost.Scan.{match_www_row, is_row_type, blanks}
use webox.Smallhost.Scan.Visible.{
  span-spaces, span_blank-spaces, spaces, is_visible, IsWord, word-space, span-space, span_whole,
  trim_space-words,
}

abbrev pub header : Text
header = codes "domain                                       type     node_version"

-- A row, with the numbers of spaces beyond one that are put behind its first and its second column.
pub record Line : Type 0 where
  pub row : Subdomain
  pub after_domain : ℕ
  pub after_type : ℕ

-- The last column: a hyphen stands for no version.
abbrev pub node_column : Subdomain → Text
node_column r = if is_empty r.node_version then codes "-" else r.node_version

-- The columns stand apart by one space or more.
abbrev middle : Line → Text
middle l = 32 ∷ spaces l.after_domain ++ (l.row.type ++ 32 ∷ spaces l.after_type)

abbrev pub row_line : Line → Text
row_line l = l.row.domain ++ (middle l ++ node_column l.row)

-- The output of `devil www list` for some rows.
abbrev pub lines_of : List Line → Text
lines_of [] = []
lines_of (l ∷ ls) = row_line l ++ 10 ∷ lines_of ls

abbrev pub print_rows : List Line → Text
print_rows ls = header ++ 10 ∷ lines_of ls

abbrev pub IsRow : Subdomain → Type 0
IsRow r =
    IsWord r.domain
    × (is_row_type r.type ≡ true)
    × ((r.node_version ≡ []) ⊎ IsWord r.node_version × (text_eq r.node_version (codes "-") ≡ false))

row_type-IsWord : (t : Text) → is_row_type t ≡ true → IsWord t
unfolding all
row_type-IsWord t h = elim (Bool-cases (text_eq t (codes "nodejs"))) [
  | inl e ↦ subst IsWord (sym (text_eq_sound t (codes "nodejs") e)) (refl, refl)
  | inr n ↦ elim (Bool-cases (text_eq t (codes "static"))) [
    | inl e ↦ subst IsWord (sym (text_eq_sound t (codes "static") e)) (refl, refl)
    | inr m ↦ subst IsWord (sym (text_eq_sound t (codes "php") (rw (n, m) at h))) (refl, refl)
  ]
]

abbrev shown : Text → Text
shown v = if is_empty v then codes "-" else v

shown-IsWord : (v : Text) → (v ≡ []) ⊎ IsWord v × (text_eq v (codes "-") ≡ false) → IsWord (shown v)
unfolding all
shown-IsWord [] h = (refl, refl)
shown-IsWord (c ∷ v) (inl e) = absurd (cc e)
shown-IsWord (c ∷ v) (inr w) = w.0

read_back :
    (v : Text)
    → (v ≡ []) ⊎ IsWord v × (text_eq v (codes "-") ≡ false)
    → (if text_eq (shown v) (codes "-") then [] else shown v) ≡ v
unfolding text_eq
read_back [] h = refl
read_back (c ∷ v) (inl e) = absurd (cc e)
read_back (c ∷ v) (inr w) = rw w.1 refl

row_line-apart :
    (l : Line)
    → row_line l
      ≡ l.row.domain
        ++ 32
          ∷ (spaces l.after_domain
              ++ (l.row.type ++ 32 ∷ (spaces l.after_type ++ node_column l.row)))
row_line-apart l =
    let node = node_column l.row in
    ap (λ x. l.row.domain ++ 32 ∷ x)
      (append_assoc (spaces l.after_domain) (l.row.type ++ 32 ∷ spaces l.after_type) node
        ∙ ap (λ x. spaces l.after_domain ++ x)
            (append_assoc l.row.type (32 ∷ spaces l.after_type) node))

-- The row is matched.
pub match-row_line : (l : Line) → IsRow l.row → match_www_row (row_line l) ≡ some l.row
unfolding match_www_row all blanks span
match-row_line l h =
    let r = l.row in
    let d = h.0 in
    let t = row_type-IsWord r.type h.1 in
    let n = shown-IsWord r.node_version h.2 in
    let node = node_column r in
    let rest = spaces l.after_type ++ node in
    rw
      (
        row_line-apart l,
        match_www_row,
        word-space r.domain (spaces l.after_domain ++ (r.type ++ 32 ∷ rest)) d,
        span-spaces l.after_domain r.type (32 ∷ rest) t,
        span-space r.type rest t,
        t.0,
        h.1,
        span_blank-spaces l.after_type (shown r.node_version) n,
        span_whole (shown r.node_version) n,
        n.0,
        read_back r.node_version h.2,
      )
      refl

-- A printed row is trimmed already.
pub trim_space-row_line : (l : Line) → IsRow l.row → trim_space (row_line l) ≡ row_line l
trim_space-row_line l h =
    trim_space-words l.row.domain (middle l) (node_column l.row) h.0
      (shown-IsWord l.row.node_version h.2)

pub row_line-filled : (l : Line) → IsWord l.row.domain → is_empty (row_line l) ≡ false
row_line-filled l h = go l.row.domain (middle l ++ node_column l.row) h.0
  where
    go : (d t : Text) → is_empty d ≡ false → is_empty (d ++ t) ≡ false
    go [] t e = absurd (cc e)
    go (c ∷ d) t e = refl

abbrev is_printed : ℕ → Bool
is_printed c = is_visible c || c == 32

spaces-printed : (n : ℕ) → all is_printed (spaces n) ≡ true
unfolding all
spaces-printed zero = refl
spaces-printed (suc n) = spaces-printed n

pub clean-row_line :
    (l : Line) → IsRow l.row → all (λ c. is_visible c || c == 32) (row_line l) ≡ true
unfolding all
clean-row_line l h =
    let r = l.row in
    let weak : (s : Text) → IsWord s → all is_printed s ≡ true =
      λ s w. all_mono is_visible _ s (λ c k. ground arith) w.1 in
    rw
      (
        all-append is_printed r.domain (middle l ++ node_column r),
        weak r.domain h.0,
        all-append is_printed (middle l) (node_column r),
        weak (node_column r) (shown-IsWord r.node_version h.2),
        all-append is_printed (spaces l.after_domain) (r.type ++ 32 ∷ spaces l.after_type),
        spaces-printed l.after_domain,
        all-append is_printed r.type (32 ∷ spaces l.after_type),
        weak r.type (row_type-IsWord r.type h.1),
        spaces-printed l.after_type,
      )
      refl
