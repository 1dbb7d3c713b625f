-- ===== src/Mongo.antt =====
-- ormx/sqld/mongo_manager.go: the manager of MongoDB.
mod Tests
pub mod Match
pub mod Options
pub mod Session
pub mod Writes
pub mod Reads
