-- ===== src/Components.antt =====
-- The components of dashboard/src/components.
pub mod Age
pub mod EventCard
pub mod StatusBadge
pub mod HealthBar
pub mod Device
pub mod Layout
pub mod Tests
