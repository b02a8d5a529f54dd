-- ===== src/Tests.antt =====
-- Runs of the definitions at concrete inputs, and the theorems applied to such inputs.
pub mod Controller
pub mod Packages
pub mod Target
pub mod Layout
pub mod Rows
pub mod Sealed
pub mod Gates
pub mod Design
pub mod Memory
pub mod Flashing
pub mod Upgrading
