-- ===== src/Ssh.antt =====
-- Package ssh: the connection pool, the limiter and the retries around it, and the keys that
-- clients are kept under.
pub mod Exec
pub mod Options
pub mod Host
pub mod Pool
pub mod Target
pub mod Retry
mod Tests
