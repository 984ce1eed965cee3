-- ===== src/Smallhost.antt =====
-- Package providers/smallhost: the adapter of the Devil panel.
pub mod Paths
pub mod Clean
pub mod Scan
pub mod Parsers
pub mod Adapter
pub mod Properties
mod Tests
