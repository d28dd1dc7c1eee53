-- ===== src/Consensus/Poas/Tests.antt =====
-- Runs of the engine of crates/consensus/src/poas.rs, and the theorems on it at them.
use kainotes.Prelude.{
  ℕ, ◌+◌, ◌%◌, u64_mod, ◌≤◌, ◌<◌, ◌≡◌, refl, arith, true, none, some, List, [], ◌∷◌, All,
}
use kainotes.Prelude.Result.{ok}
use kainotes.Dict.{lookup, insert, contains}
use kainotes.Core.Samples.{sample_host, signed}
use kainotes.Core.Transaction.{Transaction, TransactionType, validate_basic, validate_type}
use kainotes.Core.Mempool
use kainotes.Core.Mempool.{
  TransactionPool, add, get_pending, take_fitting, highest_first, put_pending, put_queued,
  make_room, place, track, remove_included, remove_tx,
}
use kainotes.Core.Mempool.Selection.{IsModest}
use kainotes.Dict.Ordered.{insert_ordered}
use kainotes.Core.Block
use kainotes.Core.Block.{Block, header_hash, transaction_hash, transactions_root, total_gas}
use kainotes.Core.Types.{hash_bytes}
use kainotes.Crypto.Merkle
use kainotes.Crypto.Merkle.{plant, total_nodes, root}
use kainotes.Crypto.Merkle.Power.{next_power_of_two}
use kainotes.Core.Fork
use kainotes.Core.Fork.{ReorgPath, choose_chain, record_fork}
use kainotes.Core.Chain.Samples.{root_block}
use kainotes.Consensus.Validator.{
  new_validator, new_set, get_validator, can_produce_blocks, is_active,
}
use kainotes.Consensus.Slashing.{new_slashing}
use kainotes.Consensus.Poas.{
  PoasConsensus, default_config, new_engine, is_finalized, time_diff, produce_block, validate_block,
  verify_before_produce, verify_chain_canonical,
}
use kainotes.Consensus.Poas.Reorg.{
  apply_reorg, ancestor_number, punish_all, punish_against, punish, resolve, note_reorg,
}
use kainotes.Consensus.Poas.Production.{produced_is_accepted}
use kainotes.Consensus.Poas.Finality.{
  EngineCall, justifies, finalizes, reorganises, registers, produces, calls,
  apply_reorg-above_justified, justified_stays_finalized,
}

abbrev block_at : ℕ → ℕ → ℕ → Block
block_at number timestamp proposer = record root_block {
  header = record (root_block.header) {
    number = number;
    timestamp = timestamp;
    proposer = proposer;
  };
}

-- Two blocks of the proposer 4 at the number 3, and one that prolongs the second.
abbrev path : ReorgPath
path = record {
  common_ancestor = 77;
  revert_blocks = block_at 3 10 4 ∷ [];
  apply_blocks = block_at 3 11 4 ∷ block_at 4 14 6 ∷ [];
  depth = 1;
}

abbrev engine : PoasConsensus
engine = record (new_engine default_config) {
  validator_set = record (new_set 500 50) {
    validators = (4, new_validator 100 4 1000 500) ∷ (6, new_validator 100 6 700 500) ∷ [];
  };
  highest_justified = some 2;
}

-- The reorganisation without the validators in the set, so that nobody is slashed.
abbrev unstaffed : PoasConsensus
unstaffed = record (new_engine default_config) { highest_justified = some 2 }

reorg_returns :
    apply_reorg sample_host 20 path none unstaffed
    ≡ (ok tt, (apply_reorg sample_host 20 path none unstaffed).1)
unfolding apply_reorg ancestor_number punish_all punish_against punish resolve note_reorg
    record_fork choose_chain new_engine default_config new_set new_slashing get_validator Fork.new
    lookup header_hash
reorg_returns = refl

apply_reorg-above_justified_example : All (λ (b : Block). 2 < b.header.number) path.revert_blocks
apply_reorg-above_justified_example =
    apply_reorg-above_justified sample_host 20 2 path none unstaffed
      (apply_reorg sample_host 20 path none unstaffed).1 (omega arith) refl reorg_returns

abbrev sample_calls : List EngineCall
sample_calls =
    registers 100 4 20000 500
    ∷ justifies 25 1
    ∷ finalizes 26 (block_at 4 14 6)
    ∷ reorganises 27 path none
    ∷ produces 28 root_block 4 (Mempool.new Mempool.default_config)
    ∷ []

justified_stays_finalized_example : is_finalized 2 2 (calls sample_host sample_calls engine) ≡ true
justified_stays_finalized_example =
    justified_stays_finalized sample_host 2 2 sample_calls engine refl

abbrev waiting : Transaction
waiting = signed 4 0 (TransactionType.stake 10)

abbrev one_waiting : TransactionPool
one_waiting = (add sample_host 100 waiting 0 (Mempool.new Mempool.default_config)).1

-- The block of the proposer 4 on the genesis, with the transaction.
abbrev produced : Block
produced = record {
  header = record {
    number = 1;
    parent_hash = 9;
    transactions_root = 32119016606765244;
    state_root = 0;
    timestamp = 5;
    proposer = 4;
    gas_limit = 10_000_000;
    gas_used = 30000;
    extra_data = [];
  };
  transactions = waiting ∷ [];
  validator_signatures = [];
}

abbrev after_production : PoasConsensus × TransactionPool
after_production = (produce_block sample_host 5 root_block 4 (engine, one_waiting)).1

limits_are_small : All (IsModest 10_000_000) (highest_first one_waiting.pending)
unfolding add Mempool.new validate_basic validate_type contains lookup insert insert_ordered
    put_pending put_queued make_room place track transaction_hash
limits_are_small = (omega arith, tt)

production_returns :
    produce_block sample_host 5 root_block 4 (engine, one_waiting) ≡ (ok produced, after_production)
unfolding produce_block verify_before_produce verify_chain_canonical get_pending take_fitting add
    Mempool.new validate_basic validate_type contains lookup insert insert_ordered put_pending
    put_queued make_room place track transaction_hash Block.new transactions_root total_gas
    header_hash new_engine default_config new_set new_slashing Fork.new Merkle.new plant total_nodes
    next_power_of_two root hash_bytes
production_returns = refl

proposer_is_known : get_validator 4 engine.validator_set ≡ some (new_validator 100 4 1000 500)
unfolding get_validator lookup new_engine new_set
proposer_is_known = refl

proposer_is_able : can_produce_blocks (new_validator 100 4 1000 500) ≡ true
unfolding can_produce_blocks is_active new_validator
proposer_is_able = refl

time_is_close : time_diff 5 ((root_block.header.timestamp + engine.config.block_time) % u64_mod) ≤ 2
unfolding new_engine default_config
time_is_close = omega arith

produced_is_accepted_example :
    validate_block sample_host produced root_block engine ≡ (ok tt, engine)
produced_is_accepted_example =
    produced_is_accepted sample_host 5 root_block produced 4 engine after_production.0 engine
      one_waiting after_production.1 (new_validator 100 4 1000 500) (omega arith) limits_are_small
      production_returns proposer_is_known proposer_is_able time_is_close
