-- ===== src/Steering.antt =====
-- internal/chat/steer.go and internal/agent/steer.go: input that a user sends into a running turn.
pub mod Mailbox
pub mod Session
pub mod Delivery
pub mod Closing
pub mod Promptness
mod Examples
