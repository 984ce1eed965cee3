-- ===== src/Config.antt =====
-- Package config: the checks of a configuration file its migration, and how it is
-- loaded and saved.
pub mod Json
pub mod Schema
pub mod Valid
pub mod Migrate
pub mod Migrated
pub mod Store
pub mod Backup
mod Tests
