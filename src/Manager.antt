-- ===== src/Manager.antt =====
-- The manager of contracts: stable-borrow-cli/crates/dlc-manager/src/manager.rs.
pub mod World
pub mod Runs
pub mod Tests
pub mod Updates
pub mod Changes
pub mod Lookup
pub mod Closing
pub mod Loans
pub mod Checks
pub mod Moves
