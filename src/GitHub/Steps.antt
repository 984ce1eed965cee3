-- ===== src/GitHub/Steps.antt =====
-- services/github/steps.go. A time is the milliseconds since an origin, or none for the zero time;
-- the nanoseconds below them are left out.
use webox.Prelude.{List, [], ◌∷◌, ◌++◌, Option, none, some, if◌then◌else◌}
use webox.Prelude.Int.{ℤ, pos, ◌-ℤ◌, ltb_ℤ}
use webox.Prelude.Text.{Text}

pub record StepResponse : Type 0 where
  pub name : Text
  pub status : Text
  pub conclusion : Text
  pub number : ℤ
  pub started_at : Option ℤ
  pub completed_at : Option ℤ

pub record JobResponse : Type 0 where
  pub id : ℤ
  pub name : Text
  pub steps : List StepResponse

pub record Step : Type 0 where
  pub job_id : ℤ
  pub job_name : Text
  pub number : ℤ
  pub name : Text
  pub status : Text
  pub conclusion : Text
  pub started_at : Option ℤ
  pub completed_at : Option ℤ
  pub duration_ms : ℤ

unfoldable pub diff_millis : Option ℤ → Option ℤ → ℤ
diff_millis none end_at = pos 0
diff_millis (some start) none = pos 0
diff_millis (some start) (some end_at) =
    if ltb_ℤ (end_at -ℤ start) (pos 0) then pos 0 else end_at -ℤ start

abbrev step_of : JobResponse → StepResponse → Step
step_of job step = record {
  job_id = job.id;
  job_name = job.name;
  number = step.number;
  name = step.name;
  status = step.status;
  conclusion = step.conclusion;
  started_at = step.started_at;
  completed_at = step.completed_at;
  duration_ms = diff_millis step.started_at step.completed_at;
}

-- The inner loop.
steps_of : JobResponse → List StepResponse → List Step
unfolding diff_millis
steps_of job [] = []
steps_of job (step ∷ steps) = step_of job step ∷ steps_of job steps

unfoldable pub flatten : List JobResponse → List Step
unfolding steps_of
flatten [] = []
flatten (job ∷ jobs) = steps_of job job.steps ++ flatten jobs
