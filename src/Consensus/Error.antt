-- ===== src/Consensus/Error.antt =====
-- crates/consensus/src/lib.rs: the errors of the consensus, without their messages.
use kainotes.Prelude.{ℕ}
use kainotes.Core.Types.{Address}
use kainotes.Core.Error.{BlockchainError}

pub data ConsensusError : Type 0 where
  validator_error invalid_validator_status block_production_error : ConsensusError
  insufficient_stake : ℕ → ℕ → ConsensusError
  validator_not_found validator_already_exists : Address → ConsensusError
  validation_error slashing_error selection_error : ConsensusError
  blockchain_error : BlockchainError → ConsensusError
  crypto_error : ConsensusError
