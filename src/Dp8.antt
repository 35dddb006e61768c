-- ===== src/Dp8.antt =====
-- internal/dp8: the transport engine, between the native bridge and the protocol engine.
pub mod Address
pub mod Summaries
pub mod Engine
pub mod Lifecycle
pub mod Telemetry
