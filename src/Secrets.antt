-- ===== src/Secrets.antt =====
-- Package secrets, the encrypted file that stands in for a keyring: secrets/fallback.go and
-- secrets/fallback_crypto.go. Bytes are numbers.
pub mod File
pub mod Vault
pub mod Saved
pub mod Opened
pub mod History
pub mod Calls
pub mod Rotation
mod Tests
