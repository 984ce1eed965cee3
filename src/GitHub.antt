-- ===== src/GitHub.antt =====
-- Package services/github: the wait for a run of a workflow, the calls of the REST transport, and what
-- is read of runs and their logs.
pub mod Poll
pub mod Answers
pub mod Steps
pub mod Logs
pub mod Rest
pub mod Calls
mod Tests
