-- ===== src/Components/Device.antt =====
-- A device in the topology: DeviceCircle.jsx, DeviceNode.jsx and DeviceTooltip.jsx of
-- dashboard/src/components.
pub mod Icon
pub mod Circle
pub mod Node
pub mod Tooltip
