-- ===== src/Contract.antt =====
-- The states of a contract: stable-borrow-cli/crates/dlc-manager/src/contract.
pub mod Types
pub mod Ids
pub mod Enum
pub mod Info
pub mod Pnl
pub mod Tests
