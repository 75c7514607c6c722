-- ===== src/Generator.antt =====
-- src/OrderGenerator.cpp.
pub mod Orders
pub mod Feed
pub mod Ids
pub mod Columns
pub mod Rows
pub mod Resend
mod Examples
mod Stored
