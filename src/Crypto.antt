-- ===== src/Crypto.antt =====
-- crates/blockchain-crypto/src: the Merkle tree.
pub mod Merkle
