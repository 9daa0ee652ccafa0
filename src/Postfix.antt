-- ===== src/Postfix.antt =====
-- The package postfix_blocker/postfix.
pub mod Maps
pub mod Control
pub mod LogLevel
