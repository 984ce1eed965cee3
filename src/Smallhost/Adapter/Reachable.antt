-- ===== src/Smallhost/Adapter/Reachable.antt =====
-- CheckStatus over the executor of package ssh.
use webox.Prelude.{◌≡◌, ◌≢◌, refl, Bool, true, false, ◌⊎◌, inl, inr, Option, none, some}
use webox.Prelude.Int.{ℤ, pos}
use webox.Prelude.Text.{codes}
use webox.Errors.{Error}
use webox.Providers.{ProviderStatus}
use webox.Ssh.Exec.{ExecResult, Channel}
use webox.Ssh.Exec.Ends.{exec-zero}
use webox.Smallhost.Adapter.{
  Provider, set_executor, new_ssh_executor, exec, is_code, status_answer, check_status,
}

-- Whether a status says that the host is reached and that it has the panel's command.
abbrev pub Says : Bool → Bool → ProviderStatus → Type 0
Says connected installed s = (s.ssh_connected ≡ connected) × (s.cli_installed ≡ installed)

-- The error comes with a status, of one of two kinds.
abbrev pub IsAnswer : Option Error → ProviderStatus × Option Error → Type 0
IsAnswer e a = (a.1 ≡ e) × ((e ≡ none) × Says true true a.0 ⊎ (e ≢ none) × Says false false a.0)

status_answer-IsAnswer :
    (latency : ℤ) (out : ExecResult) (e : Option Error)
    → (e ≡ none → out.exit_code ≡ pos 0)
    → IsAnswer e (status_answer latency out e)
unfolding status_answer is_code
status_answer-IsAnswer latency out (some e) zero = (refl, inr (λ h. cc h, (refl, refl)))
status_answer-IsAnswer latency out none zero =
    (rw (zero refl) refl, inl (refl, (refl, rw (zero refl) refl)))

-- Over the executor of package ssh, the error of a check of the status is that of the run, and the
-- status says that the host is reached and has the panel's command if there is none, and that the
-- host is not reached and lacks the command if there is one. So a host that is reached and lacks
-- the command (exit code 127) is never told apart from one that is not reached.
pub check_status-IsAnswer :
    {C W : Type 0} (ch : Channel C W) (p : Provider W) (w : W)
    → let q = set_executor p (some (new_ssh_executor ch)) in
      (status : ProviderStatus) × ((check_status q w).1 ≡ some status)
      × IsAnswer
          (new_ssh_executor ch (codes "devil --version") (p.now w).0).2
          (status, (check_status q w).2)
unfolding check_status set_executor exec new_ssh_executor
check_status-IsAnswer ch p w =
    let start = (p.now w).0 in
    let out = new_ssh_executor ch (codes "devil --version") start in
    (_, refl, status_answer-IsAnswer _ out.1 out.2 (exec-zero ch (codes "devil --version") start))
