-- ===== src/State.antt =====
-- internal/state: the reports of calls and the manual switching of keys.
pub mod Types
pub mod Manager
pub mod Manual
pub mod Trace
pub mod LockSteps
pub mod LockReport
pub mod LockManual
pub mod Keeps
pub mod Backed
pub mod IdemKeys
pub mod Idempotency
pub mod Tables
pub mod Locate
pub mod TakesOut
pub mod TookOut
pub mod Unwritten
pub mod Switched
