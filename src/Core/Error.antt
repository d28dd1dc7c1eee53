-- ===== src/Core/Error.antt =====
-- The errors of crates/blockchain-core/src/lib.rs. A message is a constructor of its own: the text
-- is never read by the program.
use kainotes.Prelude.{ℕ}
use kainotes.Core.Types.{Hash}

-- the messages of `InvalidTransaction`
pub data TransactionFault : Type 0 where
  missing_signature zero_gas_limit zero_gas_price : TransactionFault
  zero_transfer zero_stake zero_unstake zero_liquidity zero_withdrawal : TransactionFault
  empty_bytecode empty_call_data : TransactionFault
  too_many_from_sender gas_price_below_minimum : TransactionFault

-- the messages of `InvalidBlock`
pub data BlockFault : Type 0 where
  invalid_number parent_hash_mismatch timestamp_not_after_parent : BlockFault
  gas_used_exceeds_limit merkle_root_mismatch gas_used_mismatch : BlockFault
  state_root_mismatch state_root_mismatch_after_execution : BlockFault

-- the messages of `InvalidChain`
pub data ChainFault : Type 0 where
  not_genesis missing_block : ChainFault

-- the messages of `StateError`
pub data StateFault : Type 0 where
  balance_overflow stake_overflow insufficient_stake : StateFault
  liquidity_over_stake liquidity_overflow insufficient_liquidity : StateFault

-- the errors of crates/blockchain-crypto/src/lib.rs that the core meets
pub data CryptoError : Type 0 where
  empty_tree index_out_of_bounds : CryptoError

pub data BlockchainError : Type 0 where
  invalid_block : BlockFault → BlockchainError
  invalid_transaction : TransactionFault → BlockchainError
  invalid_chain : ChainFault → BlockchainError
  state_error : StateFault → BlockchainError
  insufficient_balance nonce_mismatch pool_full no_common_ancestor : BlockchainError
  block_not_found duplicate_transaction : Hash → BlockchainError
  reorg_too_deep : ℕ → BlockchainError
  crypto_error : CryptoError → BlockchainError
