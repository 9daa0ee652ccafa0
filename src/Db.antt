-- ===== src/Db.antt =====
-- The package postfix_blocker/db.
pub mod Table
pub mod Schema
pub mod Props
pub mod Admins
pub mod Engine
pub mod Db2
pub mod Migrations
