-- ===== src/Updater/Handshake.antt =====
-- The two parties of a contract, whose functions are in stable-borrow-cli/crates/dlc-manager/src/
-- contract_updater.rs, come to the same transactions and accept each other's signatures.
pub mod Params
pub mod Signatures
pub mod Answers
pub mod Transactions
pub mod Accepted
pub mod Lender
pub mod Loan
