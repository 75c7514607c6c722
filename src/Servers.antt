-- ===== src/Servers.antt =====
-- src/WebSocketServer.cpp and src/HealthCheckServer.cpp.
pub mod Socket
pub mod Health
pub mod Broadcast
pub mod Table
pub mod Timeliness
mod Examples
