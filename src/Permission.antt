-- ===== src/Permission.antt =====
-- internal/tools/permission.go: whether a tool call with a side effect may run.
--   Shell: the lexical analysis of a command.  Risk: the advisory label.
--   Policy: the rules on command prefixes, and the handlers.  Modes: the switch between turns.
pub mod Shell
pub mod Quoting
pub mod Risk
pub mod Policy
pub mod Modes
pub mod Restriction
pub mod Gate
pub mod Consent
mod Examples
