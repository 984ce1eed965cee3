-- ===== src/Smallhost/Parsers/Rows.antt =====
-- parseWwwList reads what it was printed from, and drops no row.
use webox.Prelude.{
  ◌≡◌, refl, ap, ◌∙◌, ◌≤◌, true, false, List, [], ◌∷◌, ◌++◌, arith, length, All, map,
}
use webox.Prelude.Text.{Text, has_prefix, is_space, trim_left, trim_space}
use webox.Prelude.Words.{all, split}
use webox.Prelude.Words.Pieces.{all-append, all_mono, split_first}
use webox.Errors.{ok}
use webox.Smallhost.Clean.{max_output_size, strip_and_normalize}
use webox.Smallhost.Clean.Laws.{is_clean, strip_and_normalize_clean}
use webox.Smallhost.Parsers.{on_clean, www_rows, parse_www_list}
use webox.Smallhost.Parsers.Printed.{
  Line, header, row_line, lines_of, print_rows, IsRow, match-row_line, trim_space-row_line,
  row_line-filled, clean-row_line,
}

clean-lines_of :
    (rs : List Line) → All IsRow (map (λ l. l.row) rs) → all is_clean (lines_of rs) ≡ true
unfolding all
clean-lines_of [] h = refl
clean-lines_of (r ∷ rs) h =
    let here : all is_clean (row_line r) ≡ true =
      all_mono _ is_clean (row_line r) (λ c k. ground arith) (clean-row_line r h.0) in
    rw (all-append is_clean (row_line r) (10 ∷ lines_of rs), here, clean-lines_of rs h.1) refl

split-lines_of :
    (rs : List Line)
    → All IsRow (map (λ l. l.row) rs)
    → split 10 (lines_of rs) ≡ map row_line rs ++ [] ∷ []
unfolding split
split-lines_of [] h = refl
split-lines_of (r ∷ rs) h =
    split_first 10 (row_line r) (lines_of rs)
      (all_mono _ _ (row_line r) (λ c k. ground arith) (clean-row_line r h.0))
    ∙ ap (◌∷◌ (row_line r)) (split-lines_of rs h.1)

www_rows-row_lines :
    (rs : List Line)
    → All IsRow (map (λ l. l.row) rs)
    → www_rows false (map row_line rs ++ [] ∷ []) ≡ ok (map (λ l. l.row) rs)
unfolding www_rows trim_space
www_rows-row_lines [] h = refl
www_rows-row_lines (r ∷ rs) h =
    rw
      (
        www_rows,
        trim_space-row_line r h.0,
        row_line-filled r h.0.0,
        match-row_line r h.0,
        www_rows-row_lines rs h.1,
      )
      refl

parse_www_list_clean :
    (raw : Text)
    → strip_and_normalize raw ≡ ok raw
    → parse_www_list raw ≡ www_rows true (split 10 raw)
unfolding parse_www_list
parse_www_list_clean raw e = rw (parse_www_list, on_clean, e) refl

-- The header is skipped in the first place.
www_rows-header : (lines : List Text) → www_rows true (header ∷ lines) ≡ www_rows false lines
unfolding www_rows trim_space trim_left is_space has_prefix
www_rows-header lines = refl

-- The rows of an account, printed below a header with any number of spaces, one or more, between
-- their columns, are read back, if the output is at most 1 MiB, domains and versions are words of visible ASCII, no version is a
-- hyphen alone, and each type is one of the three.
pub parse_www_list-print_rows :
    (rs : List Line)
    → All IsRow (map (λ l. l.row) rs)
    → length (print_rows rs) ≤ max_output_size
    → parse_www_list (print_rows rs) ≡ ok (map (λ l. l.row) rs)
unfolding all
parse_www_list-print_rows rs h size =
    let fine : all is_clean (print_rows rs) ≡ true =
      all-append is_clean header (10 ∷ lines_of rs) ∙ rw (clean-lines_of rs h) refl in
    let lines : split 10 (print_rows rs) ≡ header ∷ (map row_line rs ++ [] ∷ []) =
      split_first 10 header (lines_of rs) refl ∙ ap (◌∷◌ header) (split-lines_of rs h) in
    parse_www_list_clean (print_rows rs) (strip_and_normalize_clean (print_rows rs) fine size)
    ∙ ap (www_rows true) lines
    ∙ www_rows-header (map row_line rs ++ [] ∷ [])
    ∙ www_rows-row_lines rs h
