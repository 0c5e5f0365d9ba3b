-- ===== src/Tests.antt =====
-- Runs of the theorems at concrete inputs.
pub mod Frames
pub mod Plans
pub mod Requests
pub mod Devices
pub mod Backups
pub mod Nodes
pub mod Configs
pub mod Waits
pub mod Spaces
pub mod Recoveries
