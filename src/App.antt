-- ===== src/App.antt =====
-- The operations of rust/src/app.rs on services: deploy, start, stop, destroy, routes, volumes, secrets and
-- snapshots. Each is an action over the database and a host; the proofs are in modules of their own.
pub mod Support
pub mod Network
pub mod Start
pub mod Stop
pub mod Deploy
pub mod Resources
pub mod Inspect
pub mod Projects
pub mod Rollback
pub mod Links
pub mod Constraints
pub mod Stopping
pub mod Starting
pub mod Destroying
pub mod Requests
pub mod Recorded
pub mod Bystanders
pub mod Refusing
pub mod Succeeding
