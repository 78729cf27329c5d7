-- ===== src/Api.antt =====
-- internal/api: what the handlers compute.
pub mod Rotation
pub mod Agreement
pub mod Requests
pub mod Accepted
pub mod Router
pub mod Keys
pub mod Configs
pub mod Metrics
pub mod Serve
pub mod Wired
pub mod Documented
pub mod Access
pub mod Listed
pub mod Passed
pub mod Effects
pub mod Service
pub mod Switching
pub mod Known
pub mod Failures
pub mod Rows
pub mod Snapshots
pub mod Saved
