-- ===== src/Central/Tests.antt =====
-- The theorems at concrete inputs.
mod Allocating
mod Rest
mod Hosts
mod Ingesting
mod Enrolling
