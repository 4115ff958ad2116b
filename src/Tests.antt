-- ===== src/Tests.antt =====
-- Runs of the theorems on concrete inputs.
pub mod Data
pub mod Graphs
pub mod Desk
pub mod Launches
pub mod Decisions
pub mod Plant
pub mod Replaying
pub mod Building
