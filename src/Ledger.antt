-- ===== src/Ledger.antt =====
-- internal/store: the durable session ledger, a hash-chained journal of events per thread.
--   Events: event kinds, payloads, errors, and the codec that the store takes from its libraries.
--   Lifecycle: the turn and tool state machine that every event passes through, with the checks in
--   Usage.  State, Compaction, Accounting, Checkpoints, Apply: what an event does to the state.
--   Chain: the hash chain and the replay.  Store: the writers.
pub mod Events
pub mod Usage
pub mod Lifecycle
pub mod Turns
pub mod Ownership
pub mod State
pub mod Compaction
pub mod Accounting
pub mod Checkpoints
pub mod Apply
pub mod Chain
pub mod Store
pub mod Names
pub mod Head
pub mod Pauses
pub mod Filing
pub mod Metering
pub mod Recovery
pub mod Idle
pub mod Compactor
pub mod Failures
pub mod Closing
pub mod Reload
mod Samples
mod Examples
mod CompactionExamples
