-- ===== src/Proto.antt =====
-- internal/proto: the application protocol, its parser and its handlers.
pub mod Xmlish
pub mod Markup
pub mod Clock
pub mod Engine
pub mod Ids
pub mod LogFile
