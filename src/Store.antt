-- ===== src/Store.antt =====
-- internal/store/state.go: the state behind one mutex, one module for each group of its methods.
-- Each method is a function from the store at its lock to its result and the store at its unlock;
-- what it reads of the clock and of the random source is an argument.
pub mod State
pub mod Users
pub mod Keys
pub mod Counters
pub mod Frame
pub mod Windows
pub mod Trips
pub mod Links
pub mod Changes
pub mod Consistent
pub mod Saved
pub mod Secrets
pub mod Ledger
pub mod Limit
mod Tests
