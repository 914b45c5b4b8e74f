-- ===== src/Shared.antt =====
-- The shared state of agents/base_agent.py: JSON files in one directory, which the agents read, write
-- and append to under the lock of a file beside them.
pub mod Json
pub mod Values
pub mod Jobs
pub mod Registration
pub mod Steps
pub mod Invariant
pub mod Serial
pub mod Progress
