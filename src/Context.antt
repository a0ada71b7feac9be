-- ===== src/Context.antt =====
-- internal/contextbuild with internal/usage: the size of a prompt, the policy of the context window,
-- and the planner that selects what of a conversation goes into the next request.
pub mod Tokens
pub mod Policy
pub mod Exact
pub mod Admission
pub mod Refs
pub mod Checkpoints
pub mod Claims
pub mod Provenance
pub mod Planner
pub mod Plan
pub mod Selection
pub mod Layout
pub mod Stages
pub mod Plans
pub mod Charges
pub mod Budget
pub mod Ceiling
pub mod Degrading
pub mod Sourcing
pub mod Unique
pub mod Accepted
pub mod Anchors
pub mod Samples
mod Examples
