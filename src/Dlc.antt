-- ===== src/Dlc.antt =====
-- The crate stable-borrow-cli/crates/dlc: the transactions of a contract and of a loan.
pub mod Types
pub mod Tests
pub mod Checked
pub mod Util
pub mod Party
pub mod Script
pub mod Signing
pub mod Cets
pub mod Funding
pub mod Loan
