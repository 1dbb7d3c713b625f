-- ===== src/Sqlc.antt =====
-- ormx/sqlc: the query conditions that every database manager reads.
pub mod Value
pub mod Object
pub mod Cnd
pub mod Builder
pub mod Calls
mod Tests
