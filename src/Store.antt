-- ===== src/Store.antt =====
-- services/session-memory/store: the typed data-access layer over Postgres.
pub mod Models
pub mod Db
pub mod Facts
pub mod Governance
pub mod Sessions
pub mod Identity
pub mod Registry
pub mod History
pub mod Retention
