-- ===== src/Startup.antt =====
-- main.cpp: which component the program starts, and its exit code.
pub mod Dispatch
pub mod Names
pub mod Parts
pub mod Serve
pub mod Ends
pub mod Matching
pub mod Starts
mod Examples
