-- ===== src/Market.antt =====
-- src/OrderGenerator.cpp, src/MatchingEngine.cpp and src/PersistenceProgram.cpp at work one behind the other.
pub mod Orders
pub mod Clearing
mod Examples
