-- ===== src/Contracts.antt =====
-- The contract engine, crates/smart-contracts/src.
pub mod Gas
pub mod State
