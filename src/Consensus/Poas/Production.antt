-- ===== src/Consensus/Poas/Production.antt =====
-- A block that `produce_block` of crates/consensus/src/poas.rs builds out of the pool, against the
-- rules by which `validate_block` accepts one.
use kainotes.Prelude.{
  ℕ, ◌+◌, ◌%◌, ◌≤◌, ◌<◌, ◌≡◌, refl, true, some, List, [], ◌∷◌, arith, All, filter_by, u64_mod,
}
use kainotes.Prelude.Result.{ok}
use kainotes.Core.Types.{Address, zero_hash}
use kainotes.Core.Transaction.{Transaction, validate_basic}
use kainotes.Core.Host.{Host}
use kainotes.Core.Block
use kainotes.Core.Block.{Block, block_hash, block_number, validate, validate_all, total_gas}
use kainotes.Core.Block.Validity.{new_validates}
use kainotes.Core.Fork.{detect_fork}
use kainotes.Core.Mempool.{TransactionPool, get_pending, highest_first}
use kainotes.Core.Mempool.Selection.{IsModest, gas_of, get_pending_fits}
use kainotes.Consensus.Validator.{ValidatorInfo, get_validator, can_produce_blocks}
use kainotes.Consensus.Poas.{
  PoasConsensus, is_ok, time_diff, produce_block, validate_block, verify_before_produce,
}

-- The transactions that a block on a parent takes from the pool.
abbrev chosen : Block → TransactionPool → List Transaction
chosen parent p =
    filter_by (λ (tx : Transaction). is_ok (validate_basic tx))
      (get_pending parent.header.gas_limit 1000 p)

filter_valid :
    (txs : List Transaction)
    → validate_all (filter_by (λ (tx : Transaction). is_ok (validate_basic tx)) txs) ≡ ok tt
unfolding validate_all
filter_valid [] = refl
filter_valid (tx ∷ txs) = ground (arith, filter_valid txs)

filter_gas :
    (txs : List Transaction)
    → gas_of (filter_by (λ (tx : Transaction). is_ok (validate_basic tx)) txs) ≤ gas_of txs
filter_gas [] = omega arith
filter_gas (tx ∷ txs) = ground (arith, filter_gas txs)

chosen_fits :
    (parent : Block) (p : TransactionPool)
    → All (IsModest parent.header.gas_limit) (highest_first p.pending)
    → total_gas (chosen parent p) ≤ parent.header.gas_limit
unfolding total_gas
chosen_fits parent p modest =
    let fits = get_pending_fits parent.header.gas_limit 1000 p modest in
    let less = filter_gas (get_pending parent.header.gas_limit 1000 p) in
    omega (arith, fits.0, less)

-- What `produce_block` returns is what `Block::new` builds.
produced_is_new :
    (host : Host) (now : ℕ) (parent b : Block) (proposer : Address) (c d : PoasConsensus)
    (p q : TransactionPool)
    → produce_block host now parent proposer (c, p) ≡ (ok b, (d, q))
    → Block.new host now
        ((block_number parent + 1) % u64_mod)
        (block_hash host parent)
        zero_hash
        proposer
        (chosen parent p)
        parent.header.gas_limit
      ≡ ok b
unfolding produce_block verify_before_produce
produced_is_new host now parent b proposer c d p q h = ground (arith, h)

produced_fields :
    (host : Host) (now number parent_hash state_root : ℕ) (proposer : Address)
    (txs : List Transaction) (gas_limit : ℕ) (b : Block)
    → Block.new host now number parent_hash state_root proposer txs gas_limit ≡ ok b
    → (b.header.proposer ≡ proposer)
      × (b.header.timestamp ≡ now)
      × (b.header.parent_hash ≡ parent_hash)
unfolding Block.new
produced_fields host now number parent_hash state_root proposer txs gas_limit b h =
    ground (arith, h)

-- A block that the engine produces from the pool, at a time after its parent's and with no gas limit
-- in the pool that can make the 64-bit sum wrap around, is accepted on that parent by any engine in
-- whose set the proposer can produce blocks and whose expected time is at most two seconds off.
pub produced_is_accepted :
    (host : Host) (now : ℕ) (parent b : Block) (proposer : Address) (c d e : PoasConsensus)
    (p q : TransactionPool) (v : ValidatorInfo)
    → parent.header.timestamp < now
    → All (IsModest parent.header.gas_limit) (highest_first p.pending)
    → produce_block host now parent proposer (c, p) ≡ (ok b, (d, q))
    → get_validator proposer e.validator_set ≡ some v
    → can_produce_blocks v ≡ true
    → time_diff now ((parent.header.timestamp + e.config.block_time) % u64_mod) ≤ 2
    → validate_block host b parent e ≡ (ok tt, e)
unfolding validate_block detect_fork
produced_is_accepted host now parent b proposer c d e p q v later modest made found able close =
    let new = produced_is_new host now parent b proposer c d p q made in
    let valid =
      new_validates host now parent zero_hash proposer (chosen parent p) parent.header.gas_limit b
        later (filter_valid (get_pending parent.header.gas_limit 1000 p))
        (chosen_fits parent p modest) new in
    let fields =
      produced_fields host now ((block_number parent + 1) % u64_mod) (block_hash host parent)
        zero_hash proposer (chosen parent p) parent.header.gas_limit b new in
    ground (arith, valid, fields, found, able, close)
