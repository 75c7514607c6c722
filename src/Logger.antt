-- ===== src/Logger.antt =====
-- src/include/Logger.h.
pub mod Lines
pub mod Files
pub mod Entries
mod Examples
