-- ===== src/Ethereum.antt =====
-- Wallets, receipts and contracts: subfile-exchange/src/util.rs, subfile_client/signer.rs and
-- transaction_manager/mod.rs. The crates ethers, tap_core and serde_json are parameters.
pub mod Crates
pub mod Wallets
pub mod Signer
pub mod Transactions
pub mod Addresses
