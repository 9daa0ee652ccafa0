-- ===== src/Web.antt =====
-- The package postfix_blocker/web: handlers that take a request and change the session and the
-- databases.
pub mod Json
pub mod Http
pub mod Auth
pub mod Addresses
pub mod Passkeys
pub mod Logs
pub mod TestReset
pub mod App
