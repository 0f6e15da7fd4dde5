-- ===== src/Agent.antt =====
-- The agent: its discovery and evaluation of a host's ports, its reservation file and its recommendations,
-- agent/portforge_agent.
pub mod Records
pub mod Discovery
pub mod Evaluate
pub mod Reserve
pub mod Recommend
pub mod Mutations
pub mod Workflow
pub mod Purpose
mod Tests
