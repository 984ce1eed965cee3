-- ===== src/GitHub/Logs/Lines.antt =====
-- What the lines of a log show.
use webox.Prelude.{
  ◌≡◌, refl, ◌≤◌, inl, inr, ℕ, zero, suc, ◌-◌, Bool, true, false, ◌&&◌, List, [], ◌∷◌, ◌++◌, ltb,
  length, length-drop, drop, reverse, ◌==◌, neg, arith, All, Bool-cases,
}
use webox.Prelude.Int.{ℤ, pos, ltb_ℤ, pos_part}
use webox.Prelude.Text.{Text, is_empty}
use webox.Prelude.Words.{all, split}
use webox.GitHub.Logs.{
  WorkflowLogLine, two, three, push_part, split_two, after_tab, split_three, line_of_parts,
  split_gh_log_line, drop_lf, log_lines, capped, parse_gh_log_lines,
}

abbrev pub no_tab : Text → Bool
no_tab = all (λ c. neg (c == 9))

split_two-tab : (s t : Text) → no_tab s ≡ true → split_two (s ++ 9 ∷ t) ≡ two s t
unfolding split_two push_part all
split_two-tab [] t h = refl
split_two-tab (c ∷ s) t h = rw (split_two-tab s t (ground (arith, h))) (ground (arith, h))

split_three-tab :
    (s t u : Text)
    → no_tab s ≡ true
    → no_tab t ≡ true
    → split_three (s ++ 9 ∷ (t ++ 9 ∷ u)) ≡ three s t u
unfolding split_three push_part after_tab all
split_three-tab [] t u h k = rw (split_two-tab t u k) refl
split_three-tab (c ∷ s) t u h k =
    rw (split_three-tab s t u (ground (arith, h)) k) (ground (arith, h))

-- A line of a job and a step without tabs, and any message, tabs included, is cut into these.
pub split_gh_log_line-tabs :
    (line : WorkflowLogLine)
    → no_tab line.job_name ≡ true
    → no_tab line.step_name ≡ true
    → split_gh_log_line (line.job_name ++ 9 ∷ (line.step_name ++ 9 ∷ line.raw)) ≡ line
unfolding split_gh_log_line line_of_parts
split_gh_log_line-tabs line h k =
    rw (split_gh_log_line, split_three-tab line.job_name line.step_name line.raw h k) refl

length-capped : (n : ℕ) (ls : List WorkflowLogLine) → length (capped (pos (suc n)) ls) ≤ suc n
unfolding capped
length-capped n ls = ground (arith, length-drop (length ls - suc n) ls)

module _ (redact : Text → Text) where
  -- A line that was cut after it was redacted.
  abbrev pub IsRedacted : WorkflowLogLine → Type 0
  IsRedacted l = (line : Text) × (is_empty line ≡ false) × (l ≡ split_gh_log_line (redact line))

  log_lines-IsRedacted : (lines : List Text) → All IsRedacted (log_lines redact lines)
  unfolding log_lines
  log_lines-IsRedacted [] = tt
  log_lines-IsRedacted (line ∷ lines) = elim (Bool-cases (is_empty line)) [
    | inl e ↦ rw (log_lines, e) (log_lines-IsRedacted lines)
    | inr n ↦ rw (log_lines, n) ((line, n, refl), log_lines-IsRedacted lines)
  ]

  drop-IsRedacted :
      (n : ℕ) (ls : List WorkflowLogLine) → All IsRedacted ls → All IsRedacted (drop n ls)
  drop-IsRedacted zero ls h = h
  drop-IsRedacted (suc n) [] h = tt
  drop-IsRedacted (suc n) (l ∷ ls) h = drop-IsRedacted n ls h.1

  capped-IsRedacted :
      (m : ℤ) (ls : List WorkflowLogLine) → All IsRedacted ls → All IsRedacted (capped m ls)
  unfolding capped
  capped-IsRedacted m ls h = elim (Bool-cases (ltb_ℤ (pos 0) m && ltb (pos_part m) (length ls))) [
    | inl e ↦ rw (capped, e) (drop-IsRedacted (length ls - pos_part m) ls h)
    | inr n ↦ rw (capped, n) h
  ]

  -- Each line that is given out was redacted before it was cut, and with a positive cap there are no
  -- more lines than that.
  pub parse_gh_log_lines-IsRedacted :
      (raw : Text) (m : ℤ) (n : ℕ)
      → All IsRedacted (parse_gh_log_lines redact raw m)
        × (length (parse_gh_log_lines redact raw (pos (suc n))) ≤ suc n)
  unfolding parse_gh_log_lines
  parse_gh_log_lines-IsRedacted [] m n = (tt, omega arith)
  parse_gh_log_lines-IsRedacted (c ∷ raw) m n =
      let lines = split 10 (reverse (drop_lf (reverse (c ∷ raw)))) in
      (
        capped-IsRedacted m (log_lines redact lines) (log_lines-IsRedacted lines),
        length-capped n (log_lines redact lines),
      )
