-- ===== src/Tokenomics.antt =====
-- crates/tokenomics/src: minting in two phases, rewards and burning.
pub mod Error
pub mod Utility
pub mod Phase
pub mod Minting
pub mod Rewards
pub mod Burning
