-- ===== src/Lib.antt =====
-- Kainotes: a model of the core of the blockchain, of its transaction pool, its fork resolver, its
-- Merkle tree, the gas and the state of its contract engine, the cache of its storage, the consensus,
-- the liquidity pools and the token economics, with the theorems that make them correct.
--
-- The program is a workspace of crates. The core, crates/blockchain-core/src, keeps the accounts
-- (state.rs), the blocks and receipts (block.rs, chain.rs), the pool of waiting transactions
-- (mempool.rs) and the choice between chains (fork.rs); it takes hashes, addresses and the Merkle
-- tree from crates/blockchain-crypto/src. The chain runs a transaction on the world state between a
-- checkpoint and a commit or a rollback; a block is validated against its parent and against the
-- root of the world state; the pool hands out transactions for a block and is told which ones were
-- included. crates/smart-contracts/src prices the operations of contracts and keeps their state, and
-- crates/storage/src keeps the entries used last at hand. crates/consensus/src chooses the proposer
-- by the weight of the validators, builds a block out of the pool, credits and slashes the validators,
-- and applies the reorganisations that the fork resolver finds. crates/liquidity/src lets validators
-- deposit into pools, on which the loans, the market maker and the treasury are built, and spreads a
-- deployment over the pools. crates/tokenomics/src mints by phases, rewards the validators and burns.
--
-- Which file models which part:
--   Prelude, Dict      Rust's integers, `Result`, methods on mutable objects, `HashMap`, `BTreeMap`
--   Prelude/Float      `f64`: binary64 numbers in units of 2^-1074, with each operation rounded to
--                      the nearest, and the casts from and to words
--   Core/Types         types.rs, and the hashes and addresses of hash.rs and keypair.rs
--   Core/Error         `BlockchainError` of lib.rs
--   Core/Transaction   transaction.rs
--   Core/Account       `Account` of state.rs
--   Core/World         `WorldState` of state.rs: one definition for each method, in the same words;
--                      `get_account_mut` is `with_account`, which takes the method that runs on it
--   Core/Host          the serialisation and the digest, which are external
--   Core/Block         block.rs: `BlockHeader::validate` is `validate_header`, `Block::validate` is
--                      `validate`, `Block::new` is `new`
--   Core/Chain         chain.rs; `apply_effects` is what `execute_transaction_type` does to the world
--                      state, `settle` the match on its result in `execute_transaction`
--   Core/Mempool       mempool.rs; `remove` is `remove_tx`, and the parts of `add` are `make_room`,
--                      `status_of`, `place` and `track`
--   Core/Fork          fork.rs; `search` is the loop of `find_common_ancestor`, `walk_back` and
--                      `walk_down` are the loops of `calculate_reorg_path`
--   Crypto/Merkle      crates/blockchain-crypto/src/merkle.rs
--   Contracts/Gas      crates/smart-contracts/src/gas.rs
--   Contracts/State    crates/smart-contracts/src/state.rs
--   Storage/Cache      crates/storage/src/cache.rs: `insert` is `put`, and `put_state` for states
--   Consensus/Validator, Slashing, Selection
--                      validator.rs, slashing.rs and selection.rs of crates/consensus/src, one
--                      definition for each method
--   Consensus/Poas     poas.rs; a method that reaches a validator of the set through `get_mut` and
--                      passes it to the slashing is `slash_in`; the two nested loops of `apply_reorg`
--                      are `punish_all` and `punish_against`, its last part is `resolve`
--   Liquidity/Pool, Lending, Treasury, Amm, Risk, Deployment
--                      the files of these names in crates/liquidity/src; a method on the pool below
--                      runs through `on_base` or `on_pool`; the two `calculate_yield` of pool.rs are
--                      `expected_yield` and `calculate_yield`
--   Tokenomics/Utility, Phase, Minting, Rewards, Burning
--                      utility_index.rs, phase_manager.rs, minting.rs, rewards.rs and burning.rs of
--                      crates/tokenomics/src
-- The folders below a component hold its theorems, and for the larger ones a part of its operations:
-- Consensus/Poas/Reorg and Metrics, Liquidity/Lending/Repayment, Liquidity/Treasury/Payments and
-- Liquidity/Deployment/Moves. Each Tests file holds runs and the theorems at concrete values.
--
-- State and errors. A struct is a record, an enum a data type. A method on a mutable object is a
-- function from the object to a result and the object that is left, `Exec`, so that what was written
-- before an early return stays written. `Result` has a third case `panic`, for an `unwrap` of nothing
-- and an index out of bounds. The texts of errors are constructors; log lines are left out.
--
-- Numbers. All are natural numbers. Sums and products of 64-bit words wrap around, as they do in a
-- release build; an amount is a `BigUint` and has no bound, and where the source reads its first digit
-- it is taken modulo 2^64. Hashes and addresses are the numbers of their bytes. A `HashMap` is a list
-- of entries whose order stands for the iteration order, which Rust leaves open; nothing but
-- `IsDistinct` is assumed of it. A `BTreeMap` is kept in ascending order. The journal of the world
-- state is a stack with its last entry first. The clock is an argument.
--
-- Loops. All loops are structural recursion but three: the doubling to the next power of two, the
-- levels of the Merkle tree, and the loops of the fork resolver take fuel. The first two are given
-- more than they can use, the number that is to be reached and the index that each round makes
-- smaller. For the last the fuel is an argument: the search stops by itself after 10000 rounds, the
-- walk back at the limit of the depth, and the walk down follows numbers that fall.
--
-- Parameters. The digest and the serialisation of accounts, transactions and headers are the fields
-- of `Host`, and the digest alone an argument of the Merkle tree and of deployments. The random
-- generator of the selection, the exponential function of the minting, the identities of loans and
-- grants, which are hashes of texts, and the callback of a reorganisation are arguments. No theorem
-- assumes anything of them but what stands among its hypotheses, such as that the hash of a new
-- block is not in the map.
--
-- Not modelled: keys and signatures (external libraries), the machine and the precompiled functions
-- of the contract engine, the database of the storage, the network, the remote calls, the node and
-- the wallets; averages in floating-point numbers for display; accessors that only return a field.
pub mod Prelude
pub mod Dict
pub mod Core
pub mod Crypto
pub mod Contracts
pub mod Storage
pub mod Liquidity
pub mod Consensus
pub mod Tokenomics
