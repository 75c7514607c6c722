-- ===== src/Engine.antt =====
-- src/MatchingEngine.cpp.
pub mod Trade
pub mod Match
pub mod Book
pub mod Process
pub mod Exact
pub mod Levels
pub mod Sweep
pub mod Invariant
pub mod Sides
pub mod Booking
pub mod Settle
pub mod Safety
pub mod Validity
pub mod Messages
pub mod Trading
pub mod Priority
pub mod Throttle
pub mod Units
pub mod Totals
pub mod Reports
pub mod Entries
pub mod Words
pub mod Run
pub mod Arrivals
pub mod Failing
pub mod Faultless
pub mod Losses
pub mod Unsent
pub mod Emptied
pub mod FailingRun
pub mod Live
pub mod Lossy
pub mod LossyRun
pub mod Booked
pub mod Resent
pub mod Scenario
mod Examples
mod Cases
mod Runs
