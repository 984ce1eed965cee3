-- ===== src/GitHub/Logs.antt =====
-- services/github/logs.go, over the redaction of internal/log.
pub mod Lines
use webox.Prelude.{
  ℕ, ◌-◌, Bool, true, false, ◌&&◌, List, [], ◌∷◌, ◌++◌, if◌then◌else◌, leb, ltb, length, drop,
  reverse, ◌==◌,
}
use webox.Prelude.Int.{ℤ, pos, ltb_ℤ, pos_part}
use webox.Prelude.Text.{Text, is_empty}
use webox.Prelude.Words.{split}

pub record WorkflowLogLine : Type 0 where
  pub job_name : Text
  pub step_name : Text
  pub raw : Text

-- The parts of SplitN at tabs, at most three: the last takes what is left.
pub data Parts : Type 0 where
  one : Text → Parts
  two : Text → Text → Parts
  three : Text → Text → Text → Parts

push_part : ℕ → Parts → Parts
push_part c (one s) = one (c ∷ s)
push_part c (two s t) = two (c ∷ s) t
push_part c (three s t u) = three (c ∷ s) t u

-- A part before the others.
split_two : Text → Parts
unfolding push_part
split_two [] = one []
split_two (c ∷ s) = if c == 9 then two [] s else push_part c (split_two s)

after_tab : Parts → Parts
after_tab (one s) = two [] s
after_tab (two s t) = three [] s t
after_tab (three s t u) = three [] s t

unfoldable pub split_three : Text → Parts
unfolding split_two after_tab push_part
split_three [] = one []
split_three (c ∷ s) = if c == 9 then after_tab (split_two s) else push_part c (split_three s)

line_of_parts : Text → Parts → WorkflowLogLine
line_of_parts line (three job step message) = record {
  job_name = job;
  step_name = step;
  raw = message;
}
line_of_parts line (two job message) = record { job_name = job; step_name = []; raw = message }
line_of_parts line (one s) = record { job_name = []; step_name = []; raw = line }

unfoldable pub split_gh_log_line : Text → WorkflowLogLine
unfolding line_of_parts split_three
split_gh_log_line line = line_of_parts line (split_three line)

-- strings.TrimRight of line feeds.
drop_lf : Text → Text
drop_lf [] = []
drop_lf (c ∷ s) = if c == 10 then drop_lf s else c ∷ s

-- The last `max_lines` of them, if it is positive.
unfoldable pub capped : ℤ → List WorkflowLogLine → List WorkflowLogLine
capped max_lines out =
    if ltb_ℤ (pos 0) max_lines && ltb (pos_part max_lines) (length out)
    then drop (length out - pos_part max_lines) out
    else out

module _ (redact : Text → Text) where
  -- The loop over the lines.
  unfoldable pub log_lines : List Text → List WorkflowLogLine
  unfolding split_gh_log_line
  log_lines [] = []
  log_lines (line ∷ lines) =
      let rest = log_lines lines in
      if is_empty line then rest else split_gh_log_line (redact line) ∷ rest

  unfoldable pub parse_gh_log_lines : Text → ℤ → List WorkflowLogLine
  unfolding log_lines capped split drop_lf
  parse_gh_log_lines raw max_lines =
      if is_empty raw
      then []
      else capped max_lines (log_lines (split 10 (reverse (drop_lf (reverse raw)))))
