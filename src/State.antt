-- ===== src/State.antt =====
-- internal/state: the in-memory state that the protocol handlers share.
pub mod Time
pub mod Players
pub mod Items
pub mod Addresses
pub mod Hosts
pub mod Rows
