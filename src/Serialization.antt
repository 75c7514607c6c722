-- ===== src/Serialization.antt =====
-- src/Serialization.cpp.
pub mod Enums
pub mod Times
pub mod Orders
pub mod RoundTrip
pub mod Members
pub mod Typed
mod Examples
pub mod Scenario
