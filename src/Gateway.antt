-- ===== src/Gateway.antt =====
-- The gateway: admission, the caches of what an engine holds, routing and the depth of speculation.
pub mod Depth
pub mod Lru
pub mod Admission
pub mod Prompts
pub mod Backends
pub mod Ring
mod Tests
