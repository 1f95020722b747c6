-- ===== src/Demo.antt =====
-- scripts/seed.js: the demo data.
pub mod Wipe
pub mod Rows
pub mod Cases
pub mod Script
