-- ===== src/Update.antt =====
-- The guards of the automatic update of a node's program.
pub mod Guard
mod Tests
