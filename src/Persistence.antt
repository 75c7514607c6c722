-- ===== src/Persistence.antt =====
-- src/PersistenceProgram.cpp.
pub mod Statements
pub mod Program
pub mod Delivery
pub mod Status
pub mod Pipeline
pub mod Lifetime
pub mod Constructed
mod Examples
mod Rounds
mod Runs
