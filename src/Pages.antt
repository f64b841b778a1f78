-- ===== src/Pages.antt =====
-- The pages of dashboard/src/pages.
pub mod Activity
pub mod Inference
pub mod Topology
pub mod Tests
