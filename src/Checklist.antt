-- ===== src/Checklist.antt =====
-- internal/agent/task_controller.go and task_persistence.go: the checklist of a thread.
pub mod Fields
pub mod Plan
pub mod Snapshot
pub mod Controller
pub mod Validity
pub mod Stored
pub mod Invariant
pub mod Display
pub mod Samples
mod Examples
