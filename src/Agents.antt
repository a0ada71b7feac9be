-- ===== src/Agents.antt =====
-- internal/tui/background_agents.go: analyses that run in the background, at most four at a time, with
-- at most sixteen kept for inspection.
--   Tasks: the tasks and the operations.  Counts: what an operation does to the number of tasks.
--   Slots: how slots are filled and freed.  Limits: the bounds over any history.
pub mod Tasks
pub mod Counts
pub mod Slots
pub mod Limits
mod Examples
