-- ===== src/Lib.antt =====
-- Loans on bitcoin between two peers: the crates under stable-borrow-cli/crates, which extend rust-dlc
-- by loans.
--
-- A lender offers a loan. The borrower pays the collateral into an escrow, whose script lets both
-- parties spend it with the borrower's preimage, and the borrower alone after a delay. When the
-- lender has recorded the loan on the lending contract and the borrower has claimed it there, which
-- reveals the preimage, the escrow is spent into the collateral output. From there the contract's
-- transactions (one for each outcome that the oracles may attest, and a refund) pay out. Each party
-- keeps its contracts in a store, moves them on when messages arrive, and checks them periodically.
--
-- Dlc is the crate dlc (stable-borrow-cli/crates/dlc/src/lib.rs and util.rs), which makes the
-- transactions: Dlc/Types its data, Dlc/Checked its arithmetic, Dlc/Util fees and orders, Dlc/Party
-- the fees and the change of one party, Dlc/Script the redeem scripts, Dlc/Cets the contract
-- execution and refund transactions, Dlc/Funding the funding of a contract that is not a loan, and
-- Dlc/Loan the escrow, the collateral and the closing transactions of a loan. A function has the name
-- that it has in the source. An amount is a number of satoshis, an `Amount` that leaves its 64 bits
-- panics, and the checked additions return an error; a transaction, its inputs and its outputs are
-- records; a script is the bytes that the calls on a builder append. What the crate bitcoin does
-- (the bytes of a call, hashes, ids of transactions, the order of keys) is the record Bitcoin.
--
-- Messages is the data of stable-borrow-cli/crates/dlc-messages/src. Contract is
-- stable-borrow-cli/crates/dlc-manager/src/contract: the states of a contract (Contract/Types), the
-- ids (Contract/Ids) and the profit (Contract/Pnl). Storage is
-- stable-borrow-cli/crates/dlc-sled-storage-provider/src/lib.rs over the records Sled (a map from keys
-- to values, taken not to fail) and Codec (an encoding of each state, read back where the numbers
-- fit), which Storage/Interface declares.
--
-- Wire is what is written to bytes and read from them (ser_impls.rs, ser_macros.rs and the macros'
-- uses in stable-borrow-cli/crates/dlc-messages/src, and contract/ser.rs of the manager's crate):
-- Wire/Numbers and Wire/Vectors the building blocks, Wire/Messages and Wire/Contracts the structs.
-- Wire/Contracts fills the record Codecs of the storage. The record Crates has what other crates
-- write for their types, and the tries and payout curves of numerical conditions.
--
-- Dlc/Signing has the signatures of that crate (util.rs, secp_utils.rs, the end of lib.rs) over the
-- record Secp, which holds what is called of secp256k1_zkp, and Dlc/Signing/Schemes what those
-- schemes promise. Trie is stable-borrow-cli/crates/dlc-trie/src/combination_iterator.rs, whose
-- iterator runs on fuel, one more than the number of oracles to the power of the number selected.
-- Contract/Enum (enum_descriptor.rs) and Contract/Info (contract_info.rs) sign and verify the outcomes
-- of a condition; the functions of a numerical condition are the record Numerical. Updater is
-- contract_updater.rs in stable-borrow-cli/crates/dlc-manager/src, with parts of utils.rs and
-- conversion_utils.rs there: Updater/Accept and Updater/AcceptLoan the accepting party, Updater/Sign
-- the answer, Updater/Answer the check of the answer and the refund. The record Outside has the
-- libraries, the wallet, the blockchain and the keys as one call finds them, the ids that it draws at
-- random included; a step that a text repeats, like the loop over the conditions, is one definition.
-- Updater/Handshake follows the messages of the two parties. Updater/Inputs
-- (contract_input.rs) validates what an offer is made of, Updater/Offer (offered_contract.rs) makes the
-- offer and reads its message, with the conversions in Updater/Conversion (conversion_utils.rs), to
-- which those of payout curves are the record Curves; Conversion/Readable and Offer/Readable follow the
-- message, Inputs/Valid has the bounds on an input.
--
-- Manager is stable-borrow-cli/crates/dlc-manager/src/manager.rs. Manager/World has the record
-- Manager, which holds what the struct of that name calls (the blockchain, the wallet, the clock, the
-- keys, the oracles, the lending contract, and the functions that sign, verify and convert
-- contracts), the record World of what its methods change, and the monad in which they run, where
-- changes outlive an error. Manager/Lookup finds a contract in a state, Manager/Loans has the messages
-- of the loan protocol, Manager/Closing the ends of a contract, Manager/Checks the periodic checks;
-- Manager/Runs,
-- Manager/Updates and Manager/Changes split the run of a method into its calls, and Manager/Moves has
-- the diagram of a contract's states.
--
-- All other loops run over lists. The files named Tests run the code at small
-- inputs. Not modelled: the tries over outcomes and the payout curves of
-- numerical conditions (floating point), channels, the transport of messages, the clients of the blockchain and of the
-- oracles, the command line, the contract in Solidity, and the printing to logs.
pub mod Prelude
pub mod Dlc
pub mod Messages
pub mod Trie
pub mod Contract
pub mod Updater
pub mod Wire
pub mod Storage
pub mod Manager
