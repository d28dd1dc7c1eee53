-- ===== src/Core.antt =====
-- crates/blockchain-core/src: accounts and the world state, transactions, blocks, the chain, the
-- pool of transactions that wait, and the choice between forks.
pub mod Types
pub mod Error
pub mod Transaction
pub mod Account
pub mod Host
pub mod Samples
pub mod World
pub mod Block
pub mod Chain
pub mod Mempool
pub mod Fork
