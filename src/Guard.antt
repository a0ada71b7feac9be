-- ===== src/Guard.antt =====
-- internal/runtimeguard/turn.go: the limits of one agent turn.
--   Errors: the package's errors, `DenialReason` and `errorForDenialReason`.
--   Options: `TurnOptions` and `normalizeTurnOptions`.
--   Budget: `TurnBudget`, its counters, and the canonical key of a tool call.
--   Admission: `admitToolBatch` and `startToolCall`.
--   Contexts: the exported functions that find the budget in a context.
pub mod Errors
pub mod Options
pub mod Budget
pub mod Admission
pub mod Safety
pub mod Slots
pub mod Counters
pub mod Ids
pub mod Batch
pub mod Started
pub mod Starts
pub mod Contexts
pub mod Turns
pub mod Nesting
pub mod Examples
