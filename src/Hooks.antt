-- ===== src/Hooks.antt =====
-- The two React hooks of dashboard/src/hooks.
pub mod Sse
pub mod Api
pub mod Tests
