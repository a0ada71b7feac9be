-- ===== src/Queue.antt =====
-- internal/tui/queue.go, queue_pane.go, slash.go: the follow-ups that wait for a running turn.
pub mod Slash
pub mod FollowUps
pub mod Commands
pub mod Drain
pub mod Items
pub mod Draining
pub mod Entries
pub mod Bounds
mod Examples
