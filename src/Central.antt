-- ===== src/Central.antt =====
-- The central server (backend/app): its tables and services.
pub mod Vocabulary
pub mod Tables
pub mod Health
pub mod Reservations
pub mod Probes
pub mod Search
pub mod Allocations
pub mod Versions
pub mod Canonical
pub mod Ingestion
pub mod Conflicts
pub mod Hosts
pub mod Enrollment
pub mod Upgrades
pub mod Lifecycle
mod Samples
mod Tests
