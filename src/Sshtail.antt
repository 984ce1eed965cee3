-- ===== src/Sshtail.antt =====
-- Package services/sshtail: the quoting of a log path and the loop that reads a stream.
pub mod Escape
pub mod Shell
pub mod Stream
pub mod Safety
mod Tests
