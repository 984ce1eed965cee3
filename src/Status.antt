-- ===== src/Status.antt =====
-- Package status: the in-memory cache behind the dashboard's badges. Its operations are in Cache,
-- the prefixes that an event makes invalid are in Events.
pub mod Cache
pub mod Events
pub mod Answers
pub mod Invalidation
mod Tests
