-- ===== src/Wizard.antt =====
-- Package wizard: provisioning with a rollback stack.
pub mod Secret
pub mod Step
pub mod Stack
pub mod Runner
pub mod Plan
pub mod Workflow
pub mod Pending
mod Encoding
pub mod Execute
pub mod GitHubPlan
pub mod GitHub
mod Tests
mod Guards
