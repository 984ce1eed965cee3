-- ===== src/Wizard/GitHub/Accounts.antt =====
-- The stack accounts for everything that the GitHub phase made.
use webox.Prelude.{List}
use webox.Wizard.Stack.{Env, Stack}
use webox.Wizard.Execute.Accounts.{Removal, removals}
use webox.Wizard.GitHubPlan.{GitHubProvisionPlan, GitHubProvisioner}
use webox.Wizard.GitHub.{Provisioned, refused, ran}
use webox.Wizard.GitHub.Balance.{Observes, Post}

module _ {W : Type 0} (env : Env W) (gh : GitHubProvisioner W) (plan : GitHubProvisionPlan)
    (log : W → List Removal) (obs : Observes env gh log) (s : Stack) (w : W) where
  abbrev OnRan : Provisioned W → Type 0
  OnRan (refused e) = Unit
  OnRan (ran st) = Post log (removals s) (log w) st
