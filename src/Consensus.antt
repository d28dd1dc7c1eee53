-- ===== src/Consensus.antt =====
-- crates/consensus/src: the validators, their slashing, their selection, and the engine over them.
pub mod Error
pub mod Validator
pub mod Slashing
pub mod Selection
pub mod Poas
