-- ===== src/Telemetry.antt =====
-- internal/telemetry/file_sink.go: the trace file, a bounded queue between the callers of Record
-- and the one goroutine that writes.
pub mod Sink
pub mod Steps
pub mod Writes
pub mod Accounts
pub mod Close
pub mod Races
mod Tests
