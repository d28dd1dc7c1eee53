-- ===== src/Core/Chain/Samples.antt =====
-- Test data on chains: a genesis block, an empty block on it, and the chains with each at the head.
use kainotes.Prelude.{◌≡◌, refl, none, [], arith}
use kainotes.Prelude.Result.{ok}
use kainotes.Dict.{lookup, insert}
use kainotes.Dict.Sorted.{sort_by_key}
use kainotes.Core.World
use kainotes.Core.World.{WorldState}
use kainotes.Core.Samples.{sample_host}
use kainotes.Core.Block.{
  Block, header_hash, validate, validate_header, validate_all, validate_root, total_gas, is_genesis,
}
use kainotes.Core.Chain
use kainotes.Core.Chain.{
  Blockchain, add_block, execute_transaction, execute_transaction_type, execute_all,
  add_block_with_execution, apply_effects, run_type, get_block, head_block, height, receipt_of,
  base_gas, verify_chain, get_recent_blocks,
}
use kainotes.Core.Chain.Linear.{founded}
use kainotes.Core.Chain.Growth.{Grown, founding, adding}

abbrev pub root_block : Block
root_block = record {
  header = record {
    number = 0;
    parent_hash = 0;
    transactions_root = 0;
    state_root = 0;
    timestamp = 0;
    proposer = 0;
    gas_limit = 10_000_000;
    gas_used = 0;
    extra_data = [];
  };
  transactions = [];
  validator_signatures = [];
}

abbrev pub start_chain : Blockchain
start_chain = founded sample_host root_block

-- An empty block on the genesis.
abbrev pub next_block : Block
next_block = record root_block {
  header = record (root_block.header) { number = 1; parent_hash = 9; timestamp = 5 };
}

abbrev pub next_chain : Blockchain
next_chain = (add_block sample_host next_block start_chain).1

pub next_is_added : add_block sample_host next_block start_chain ≡ (ok tt, next_chain)
unfolding add_block get_block head_block lookup insert validate validate_header validate_all
    validate_root total_gas header_hash World.state_root sort_by_key World.combined
next_is_added = refl

pub start_is_new : Chain.new sample_host root_block ≡ ok start_chain
unfolding Chain.new is_genesis insert
start_is_new = refl

pub next_is_fresh : lookup 25 start_chain.blocks ≡ none
unfolding lookup header_hash
next_is_fresh = refl

pub next-Grown : Grown sample_host next_chain 1
unfolding header_hash
next-Grown =
    adding next_block next_chain (founding root_block start_chain start_is_new) (omega arith) refl
      next_is_fresh next_is_added
