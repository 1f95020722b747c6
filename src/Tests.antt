-- ===== src/Tests.antt =====
-- Examples: a small state of the database, and each theorem applied to a concrete call.
mod World
mod Rules
mod Programmes
mod Disputes
mod Deliveries
mod Migrations
mod Runs
mod Requests
mod Openings
mod Webhooks
mod Demo
mod Interleavings
mod Application
mod Server
mod Seeding
