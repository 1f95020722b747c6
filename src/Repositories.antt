-- ===== src/Repositories.antt =====
-- src/repositories: the statements of the source, by their SQL.
pub mod Reference
pub mod Transactions
pub mod Disputes
pub mod Webhooks
pub mod Volumes
