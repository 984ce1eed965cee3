-- ===== src/Ssh/Exec.antt =====
-- Exec of ssh/exec.go: one command over a client of the pool. `W` is the world outside, `C` the
-- clients; the pool's Acquire and Release, and the sessions of package x/crypto/ssh, are functions
-- of the world. The duration of a run is left out.
pub mod Ends
use webox.Prelude.{List, [], Option, none, some}
use webox.Prelude.Int.{ℤ, pos, negsuc}
use webox.Prelude.Text.{Text}
use webox.Errors.{Error, Result, ok, err}

pub record ExecResult : Type 0 where
  pub stdout : Text
  pub stderr : Text
  pub exit_code : ℤ

abbrev pub no_result : ExecResult
no_result = record { stdout = []; stderr = []; exit_code = pos 0 }

-- An error of Session.Run, and the exit status if errors.As finds an ExitError in it.
pub record RunError : Type 0 where
  pub error : Error
  pub exit_status : Option ℤ

-- What the select meets first: the end of the run, or that of the context.
pub data Ran : Type 0 where
  finished : Option RunError → Ran
  cancelled : Error → Ran

pub record Channel (C W : Type 0) : Type 0 where
  pub acquire : W → W × Result C
  pub release : C → W → W
  pub new_session : C → W → W × Option Error
  pub run : Text → W → W × Text × Text × Ran
  pub close_session : W → W

unfoldable pub exit_code : Option RunError → ℤ
exit_code none = pos 0
exit_code (some e) = elim e.exit_status [ some status ↦ status | none ↦ negsuc 0 ]

abbrev pub run_error : Option RunError → Option Error
run_error none = none
run_error (some e) = some e.error

module _ {C W : Type 0} where
  -- The two deferred calls.
  abbrev close : Channel C W → C → W → W
  close ch client w = ch.release client (ch.close_session w)

  run_command : Channel C W → Text → C → W → W × ExecResult × Option Error
  unfolding exit_code
  run_command ch command client w =
      let ran : W × Text × Text × Ran = ch.run command w in
      elim ran.3 [
        | finished e ↦ (
          close ch client ran.0,
          record { stdout = ran.1; stderr = ran.2; exit_code = exit_code e },
          run_error e,
        )
        | cancelled e ↦ (
          close ch client (ch.close_session ran.0),
          record { stdout = ran.1; stderr = ran.2; exit_code = negsuc 0 },
          some e,
        )
      ]

  with_client : Channel C W → Text → C → W → W × ExecResult × Option Error
  unfolding run_command
  with_client ch command client w =
      let opened : W × Option Error = ch.new_session client w in
      elim opened.1 [
        | some e ↦ (ch.release client opened.0, no_result, some e)
        | none ↦ run_command ch command client opened.0
      ]

  unfoldable pub exec : Channel C W → Text → W → W × ExecResult × Option Error
  unfolding with_client
  exec ch command w =
      let got : W × Result C = ch.acquire w in
      elim got.1 [
        | err e ↦ (got.0, no_result, some e)
        | ok client ↦ with_client ch command client got.0
      ]
