-- ===== src/Coordinator.antt =====
-- The coordinator: the engine that serves a conversation.
pub mod Balancer
pub mod Janitor
pub mod Train
mod Tests
