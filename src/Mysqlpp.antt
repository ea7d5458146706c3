-- ===== src/Mysqlpp.antt =====
-- The wrappers of the MySQL client in src/mysqlpp.hpp: statements, results, and who deletes them.
pub mod Statement
pub mod Column
pub mod Places
pub mod Seen
pub mod Values
pub mod Handles
pub mod Fetch
pub mod Datetime
pub mod Metadata
