-- ===== src/Consensus/Poas.antt =====
-- crates/consensus/src/poas.rs: the consensus engine over the validators, the slashing and the forks.
-- The engine chooses by slot only, so its selector's random generator is never read and is left out,
-- and so are the log lines. The clock's reading is an argument.
pub mod Metrics
pub mod Reorg
pub mod Keeps
pub mod Stake
pub mod Finality
pub mod Production
mod Tests
use kainotes.Prelude.{
  ℕ, zero, suc, ◌+◌, ◌-◌, ◌*◌, ◌/◌, ◌%◌, Bool, true, false, not, ◌&&◌, Option, none, some, List, [],
  ◌∷◌, ◌++◌, map, length, ltb, leb, ◌==◌, if◌then◌else◌, min, filter_by, u64_mod,
}
use kainotes.Prelude.Result.{Result, ok, err, panic, ok_or, unwrap_or, fail_if}
use kainotes.Prelude.Result.Exec.{Exec, pure, lift, gets, modify, reject_if, ◌>>=◌, ◌>>◌}
use kainotes.Prelude.Float.{F64}
use kainotes.Dict.{Dict, lookup, insert}
use kainotes.Core.Types.{Bytes, Hash, Address, Amount, zero_hash, is_zero, from_tokens}
use kainotes.Core.Error.{BlockchainError, reorg_too_deep}
use kainotes.Core.Transaction.{Transaction, validate_basic, is_empty}
use kainotes.Core.Host.{Host}
use kainotes.Core.Block
use kainotes.Core.Block.{Block, block_hash, block_number, validate}
use kainotes.Core.Fork
use kainotes.Core.Fork.{
  ForkChoice, latest_justified, ForkResolver, ForkInfo, ReorgPath, detect_fork, record_fork,
  choose_chain,
}
use kainotes.Core.Mempool.{TransactionPool, get_pending, remove_included}
use kainotes.Consensus.Error.{
  ConsensusError, validator_error, validator_not_found, validation_error, selection_error,
  block_production_error, blockchain_error,
}
use kainotes.Consensus.Validator.{
  ValidatorInfo, ValidatorSet, new_set, get_validator, put_validator, can_produce_blocks,
  update_uptime, register, unregister, active_validators, all_validators, validator_count,
  process_unbonding, total_stake, total_liquidity_deployed,
}
use kainotes.Consensus.Slashing.{
  SlashingManager, SlashingCondition, SlashingPenalty, double_signing, new_slashing,
  slash_validator, check_downtime_slashing, SlashExec,
}
use kainotes.Consensus.Selection.{select_for_slot, nakamoto_coefficient, gini_coefficient}

pub record ConsensusConfig : Type 0 where
  pub block_time : ℕ
  pub min_stake : Amount
  pub unbonding_period : ℕ
  pub required_uptime : ℕ
  pub max_downtime_blocks : ℕ
  pub finality_blocks : ℕ
  pub target_validator_count : ℕ
  pub max_validator_count : ℕ
  pub fork_choice : ForkChoice
  pub max_reorg_depth : ℕ
  pub enable_fork_detection : Bool
  pub slash_for_wrong_fork : Bool

-- `ConsensusConfig::default`
unfoldable pub default_config : ConsensusConfig
default_config = record {
  block_time = 3;
  min_stake = 10000;
  unbonding_period = 14 * 24 * 3600;
  required_uptime = 9500;
  max_downtime_blocks = 28800;
  finality_blocks = 2;
  target_validator_count = 100;
  max_validator_count = 1000;
  fork_choice = latest_justified;
  max_reorg_depth = 100;
  enable_fork_detection = true;
  slash_for_wrong_fork = true;
}

-- A fork event is a block number with the text "resolved".
pub record PoasConsensus : Type 0 where
  pub config : ConsensusConfig
  pub validator_set : ValidatorSet
  pub slashing : SlashingManager
  pub current_epoch : ℕ
  pub blocks_per_epoch : ℕ
  pub fork_resolver : ForkResolver
  pub finality_checkpoints : Dict Bool
  pub fork_events : List (ℕ × Bytes)
  pub highest_justified : Option ℕ
  pub fork_frequency : ℕ
  pub total_reorg_depth : ℕ
  pub max_reorg_depth_observed : ℕ
  pub finality_times : List (ℕ × ℕ)

abbrev pub PoasExec : Type 0 → Type 0
PoasExec = Exec ConsensusError PoasConsensus

-- `PoASConsensus::new`
unfoldable pub new_engine : ConsensusConfig → PoasConsensus
unfolding new_set new_slashing
new_engine config = record {
  config = config;
  validator_set = new_set config.min_stake config.unbonding_period;
  slashing = new_slashing;
  current_epoch = 0;
  blocks_per_epoch = 28800;
  fork_resolver = Fork.new config.fork_choice config.max_reorg_depth;
  finality_checkpoints = [];
  fork_events = [];
  highest_justified = none;
  fork_frequency = 0;
  total_reorg_depth = 0;
  max_reorg_depth_observed = 0;
  finality_times = [];
}

unfoldable pub select_proposer : ℕ → PoasConsensus → Result ConsensusError Address
unfolding active_validators select_for_slot
select_proposer slot c =
    let active_ones = active_validators c.validator_set in
    if is_empty active_ones then err selection_error else select_for_slot active_ones slot

-- `map_err(|e| ValidationError(..))`, and `?` on an error of the core
abbrev pub as_validation : {A : Type 0} → Result BlockchainError A → Result ConsensusError A
as_validation (ok a) = ok a
as_validation (err e) = err validation_error
as_validation panic = panic

abbrev pub as_blockchain : {A : Type 0} → Result BlockchainError A → Result ConsensusError A
as_blockchain (ok a) = ok a
as_blockchain (err e) = err (blockchain_error e)
as_blockchain panic = panic

-- A fork that is longer than the deepest allowed reorganisation.
abbrev check_fork : ℕ → Option ForkInfo → Result ConsensusError Unit
check_fork max none = ok tt
check_fork max (some f) =
    fail_if (ltb max f.fork_length) (blockchain_error (reorg_too_deep f.fork_length))

-- How far two times are apart.
abbrev pub time_diff : ℕ → ℕ → ℕ
time_diff a b = if ltb b a then a - b else b - a

-- It reads the engine and changes nothing.
unfoldable pub validate_block : Host → Block → Block → PoasExec Unit
unfolding get_validator can_produce_blocks validate detect_fork
validate_block host block parent = do
  lift (as_validation (validate host block parent))
  found ← gets λ (c : PoasConsensus). get_validator block.header.proposer c.validator_set
  v ← lift (ok_or found (validator_not_found block.header.proposer))
  reject_if (not (can_produce_blocks v)) validation_error
  block_time ← gets λ (c : PoasConsensus). c.config.block_time
  let expected_time = (parent.header.timestamp + block_time) % u64_mod
  reject_if (ltb 2 (time_diff block.header.timestamp expected_time)) validation_error
  config ← gets λ (c : PoasConsensus). c.config
  lift (
      if config.enable_fork_detection
      then check_fork config.max_reorg_depth (detect_fork host parent block)
      else ok tt)

-- A call of the slashing manager on a validator of the set; a validator that is not there is left
-- alone.
abbrev pub done : {A : Type 0} → Result ConsensusError A → Result ConsensusError Unit
done (ok a) = ok tt
done (err e) = err e
done panic = panic

abbrev pub on_validator :
    {A : Type 0} → Address → SlashExec A → Option ValidatorInfo → PoasExec Unit
on_validator address m none c = (ok tt, c)
on_validator address m (some v) c =
    let (r, (s, w)) = m (c.slashing, v) in
    (done r, record c { slashing = s; validator_set = put_validator address w c.validator_set })

abbrev pub slash_in : {A : Type 0} → Address → SlashExec A → PoasExec Unit
slash_in address m c = on_validator address m (get_validator address c.validator_set) c

unfoldable pub process_epoch_transition : ℕ → PoasConsensus → PoasConsensus
unfolding process_unbonding
process_epoch_transition now c =
    let (completed, set) = process_unbonding now c.validator_set in
    record c { current_epoch = (c.current_epoch + 1) % u64_mod; validator_set = set }

-- The statistics of the proposer, then the check for downtime.
abbrev pub credit : ℕ → ℕ → SlashExec (Option SlashingPenalty)
credit now max_downtime_blocks s =
    check_downtime_slashing now max_downtime_blocks (s.0, update_uptime now true s.1)

unfoldable pub finalize_block : ℕ → Block → PoasExec Unit
unfolding get_validator check_downtime_slashing update_uptime process_epoch_transition
finalize_block now block = do
  max ← gets λ (c : PoasConsensus). c.config.max_downtime_blocks
  slash_in block.header.proposer (credit now max)
  modify λ (c : PoasConsensus).
      if block.header.number % c.blocks_per_epoch == 0 then process_epoch_transition now c else c

unfoldable pub is_finalized : ℕ → ℕ → PoasConsensus → Bool
is_finalized number head c = elim c.highest_justified [
  | some j ↦ leb number j
  | none ↦ leb ((number + c.config.finality_blocks) % u64_mod) head
]

abbrev greater : ℕ → ℕ → ℕ
greater a b = if ltb a b then b else a

unfoldable pub update_justified_checkpoint : ℕ → ℕ → PoasConsensus → PoasConsensus
update_justified_checkpoint now number c = record c {
  finality_checkpoints = insert number true c.finality_checkpoints;
  highest_justified = some (greater (unwrap_or 0 c.highest_justified) number);
  finality_times = c.finality_times ++ ((number, now) ∷ []);
}

-- Whether the history has a fork that lost with this tip.
abbrev has_lost : Hash → List ForkInfo → Bool
has_lost head [] = false
has_lost head (f ∷ fs) =
    if f.fork_tip == head && leb f.fork_length f.main_length then true else has_lost head fs

unfoldable pub verify_chain_canonical : Hash → PoasConsensus → Bool
verify_chain_canonical head c = not (has_lost head c.fork_resolver.fork_history)

unfoldable pub verify_before_produce : Hash → PoasConsensus → Result ConsensusError Unit
unfolding verify_chain_canonical
verify_before_produce head c = fail_if (not (verify_chain_canonical head c)) block_production_error

abbrev pub is_ok : {E A : Type 0} → Result E A → Bool
is_ok (ok a) = true
is_ok (err e) = false
is_ok panic = false

abbrev credit_proposer : ℕ → Address → PoasConsensus → PoasConsensus
credit_proposer now proposer c = elim (get_validator proposer c.validator_set) [
  | none ↦ c
  | some v ↦
      let w = record v { blocks_produced = (v.blocks_produced + 1) % u64_mod } in
      record c { validator_set = put_validator proposer (update_uptime now true w) c.validator_set }
]

-- A block is produced by the engine together with the pool of transactions.
unfoldable pub produce_block :
    Host → ℕ → Block → Address → Exec ConsensusError (PoasConsensus × TransactionPool) Block
unfolding verify_before_produce get_validator update_uptime
produce_block host now parent proposer = do
  checked ←
      gets
        λ (s : PoasConsensus × TransactionPool). verify_before_produce (block_hash host parent) s.0
  lift checked
  txs ← gets λ (s : PoasConsensus × TransactionPool). get_pending parent.header.gas_limit 1000 s.1
  let valid_txs = filter_by (λ (tx : Transaction). is_ok (validate_basic tx)) txs
  block ← lift (
      as_blockchain (
        Block.new host now ((block_number parent + 1) % u64_mod) (block_hash host parent) zero_hash
          proposer valid_txs parent.header.gas_limit))
  modify λ (s : PoasConsensus × TransactionPool).
      (credit_proposer now proposer s.0, remove_included host valid_txs s.1)
  pure block

abbrev on_set : {A : Type 0} → Exec ConsensusError ValidatorSet A → PoasExec A
on_set m c = let (r, set) = m c.validator_set in (r, record c { validator_set = set })

unfoldable pub register_validator : ℕ → Address → Amount → ℕ → PoasExec Unit
register_validator now address stake commission_rate = do
  full ←
      gets λ (c : PoasConsensus). leb c.config.max_validator_count (validator_count c.validator_set)
  reject_if full validator_error
  on_set (register now address stake commission_rate)

unfoldable pub unregister_validator : Address → PoasExec ValidatorInfo
unregister_validator address = on_set (unregister address)
