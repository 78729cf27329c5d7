-- ===== src/Store.antt =====
-- internal/store: the data model over the channels, abilities and options tables, the settings
-- snapshot, and the write of a key's status.
pub mod Types
pub mod Keys
pub mod CodeRange
pub mod Settings
pub mod Upsert
pub mod Poller
pub mod Loop
pub mod Open
pub mod Distinct
pub mod Walk
pub mod Meta
pub mod Apply
pub mod Effects
pub mod Abilities
