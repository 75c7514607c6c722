-- ===== src/Database.antt =====
-- src/DbConnection.cpp, src/DbConnectionPool.cpp and src/DbConfig.cpp.
pub mod Connection
pub mod Pool
pub mod Config
pub mod Reconnect
pub mod Exclusive
pub mod Waiting
pub mod Handles
pub mod Scenario
mod Examples
mod Server
