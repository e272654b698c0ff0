-- ===== src/Storage.antt =====
-- The files and connections of the resources database: ResourcesDatabaseInitializer
-- (src/service/plugins/sqlite/Database.cpp), Common::Database and its schema
-- (src/common/database).
pub mod Backups
pub mod Copies
pub mod Recovery
pub mod Fallback
pub mod Migration
pub mod Upgrades
pub mod Transactions
pub mod Queries
pub mod Runs
pub mod Connections
