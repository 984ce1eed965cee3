-- ===== src/GitHub/Poll.antt =====
-- services/github/poll.go.
use webox.Prelude.{ℕ, zero, suc, Option, none, some, if◌then◌else◌}
use webox.Prelude.Int.{ℤ, pos, leb_ℤ}
use webox.Prelude.Text.{Text, codes, text_eq}
use webox.Errors.{Error, sentinel, wrap, Result, ok, err, run_getter_nil, workflow_dispatch_failed}

-- Times and links of a run are left out.
pub record WorkflowRun : Type 0 where
  pub id : ℤ
  pub run_number : ℤ
  pub name : Text
  pub status : Text
  pub conclusion : Text

abbrev default_poll_interval : ℤ
default_poll_interval = pos 5000000000

-- The run and the error that the source returns, of which either may be nil.
pub record Outcome : Type 0 where
  pub run : Option WorkflowRun
  pub error : Option Error

-- GetLatestRun and Sleep, under a context that ends at the timeout, if there is one.
pub record Polling (W : Type 0) : Type 0 where
  pub get_latest_run : W → Result (Option WorkflowRun) × W
  pub sleep : ℤ → W → Option Error × W

unfoldable pub interval_of : ℤ → ℤ
interval_of interval = if leb_ℤ interval (pos 0) then default_poll_interval else interval

-- What a run ends the wait with: nothing while it is not completed.
unfoldable pub verdict : Option WorkflowRun → Option Outcome
verdict none = none
verdict (some run) =
    if text_eq run.status (codes "completed")
    then if text_eq run.conclusion (codes "success")
      then some (record { run = some run; error = none })
      else some (record { run = some run; error = some (wrap (sentinel workflow_dispatch_failed)) })
    else none

module _ {W : Type 0} (env : Polling W) where
  -- The loop; none when the fuel ends first.
  unfoldable pub poll : ℕ → ℤ → W → Option Outcome
  unfolding verdict
  poll zero interval w = none
  poll (suc fuel) interval w =
      let got = env.get_latest_run w in
      let slept = env.sleep interval got.1 in
      let again = poll fuel interval slept.1 in
      elim got.0 [
        | err e ↦ some (record { run = none; error = some e })
        | ok run ↦ elim (verdict run) [
          | some out ↦ some out
          | none ↦ elim slept.0 [
            | some e ↦ some (record { run = none; error = some e })
            | none ↦ again
          ]
        ]
      ]

-- No environment stands for a nil getter.
unfoldable pub wait_for_workflow_completion :
    {W : Type 0} → Option (Polling W) → ℕ → ℤ → W → Option Outcome
unfolding poll interval_of
wait_for_workflow_completion none fuel interval w =
    some (record { run = none; error = some (sentinel run_getter_nil) })
wait_for_workflow_completion (some env) fuel interval w = poll env fuel (interval_of interval) w
