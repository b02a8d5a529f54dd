-- ===== src/Ota.antt =====
-- scripts/ota_controller.py, part by part.
pub mod Manifest
pub mod World
pub mod Client
pub mod Reconcile
pub mod Deploy
pub mod Trace
pub mod Emits
pub mod Watching
pub mod Sends
pub mod Attempts
pub mod Fence
pub mod FencedDeploy
pub mod Confirmed
pub mod Settled
pub mod Termination
pub mod Release
pub mod Quarantine
pub mod Safety
