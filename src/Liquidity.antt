-- ===== src/Liquidity.antt =====
-- crates/liquidity/src: the pools in which validators deploy their stakes.
pub mod Error
pub mod Pool
pub mod Lending
pub mod Treasury
pub mod Amm
pub mod Risk
pub mod Deployment
