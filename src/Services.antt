-- ===== src/Services.antt =====
-- src/services: the operations that decide what happens in one transaction, and runs of them.
pub mod DisputeService
pub mod Evidence
pub mod Sweep
pub mod Compliance
pub mod WebhookService
pub mod Calls
pub mod Interleaved
