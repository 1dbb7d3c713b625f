-- ===== src/Sqld.antt =====
-- ormx/sqld: the managers of the relational databases.
pub mod Where
pub mod Tests
pub mod Model
pub mod Exec
pub mod Delete
pub mod Update
pub mod Save
pub mod Session
pub mod Transaction
pub mod Order
pub mod Query
