-- ===== src/Redis.antt =====
-- internal/redisx: the client's operations and the selection script.
pub mod Client
pub mod Names
pub mod Script
pub mod Picks
pub mod Locks
pub mod Keys
pub mod Usage
