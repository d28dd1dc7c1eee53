-- ===== src/Core/Chain.antt =====
-- crates/blockchain-core/src/chain.rs: the blocks by hash and by number, the head, the world state
-- and the receipts. The warning that a fork may be at hand is only logged, and is left out.
pub mod Effects
pub mod Fees
pub mod Execution
pub mod Blocks
pub mod Index
pub mod Linear
pub mod Growth
pub mod Samples
mod Tests
use kainotes.Prelude.{
  ℕ, zero, suc, ◌+◌, ◌-◌, ◌*◌, ◌%◌, Bool, true, false, not, Option, none, some, List, [], ◌∷◌, ◌++◌,
  length, ltb, leb, ◌==◌, if◌then◌else◌, sum_of, u64_mod,
}
use kainotes.Prelude.Result.{Result, ok, err, panic, ok_or, unwrap, ◌>>=◌ as and_then}
use kainotes.Prelude.Result.Exec.{Exec, pure, lift, gets, modify, reject_if, ◌>>=◌, ◌>>◌}
use kainotes.Dict
use kainotes.Dict.{Dict, lookup, insert, contains}
use kainotes.Core.Types.{Hash, Address, Amount}
use kainotes.Core.Error.{
  BlockchainError, invalid_chain, not_genesis, missing_block, block_not_found, invalid_block,
  state_root_mismatch, state_root_mismatch_after_execution, nonce_mismatch, insufficient_balance,
}
use kainotes.Core.Transaction.{
  Transaction, TransactionType, TransactionReceipt, success, validate_basic, calculate_fee,
  recipient,
}
use kainotes.Core.Account
use kainotes.Core.World
use kainotes.Core.World.{
  WorldState, WorldExec, empty_world, with_account, get_nonce, get_balance, state_root,
}
use kainotes.Core.Host.{Host}
use kainotes.Core.Block.{Block, block_number, block_hash, transaction_hash, is_genesis, validate}

pub record Blockchain : Type 0 where
  pub blocks : Dict Block
  pub block_by_number : Dict Hash
  pub head : Hash
  pub genesis : Hash
  pub state : WorldState
  pub receipts : Dict TransactionReceipt

abbrev pub ChainExec : Type 0 → Type 0
ChainExec = Exec BlockchainError Blockchain

-- A method of the world state, run on the state of the chain.
abbrev pub on_state : {A : Type 0} → WorldExec A → ChainExec A
on_state m c = let (r, s) = m c.state in (r, record c { state = s })

unfoldable pub genesis_block : Blockchain → Result BlockchainError Block
genesis_block c = unwrap (lookup c.genesis c.blocks)

unfoldable pub head_block : Blockchain → Result BlockchainError Block
head_block c = unwrap (lookup c.head c.blocks)

unfoldable pub height : Blockchain → Result BlockchainError ℕ
unfolding head_block
height c = and_then (head_block c) λ b. ok (block_number b)

unfoldable pub get_block : Hash → Blockchain → Option Block
get_block hash c = lookup hash c.blocks

abbrev pub and_get : Option Hash → Dict Block → Option Block
and_get none blocks = none
and_get (some hash) blocks = lookup hash blocks

unfoldable pub get_block_by_number : ℕ → Blockchain → Option Block
get_block_by_number number c = and_get (lookup number c.block_by_number) c.blocks

unfoldable pub get_receipt : Hash → Blockchain → Option TransactionReceipt
get_receipt tx_hash c = lookup tx_hash c.receipts

unfoldable pub has_transaction : Hash → Blockchain → Bool
unfolding contains
has_transaction tx_hash c = contains tx_hash c.receipts

-- the blocks with the `n` numbers from `number` on
unfoldable pub collect_blocks : ℕ → ℕ → Blockchain → List Block
unfolding get_block_by_number
collect_blocks zero number c = []
collect_blocks (suc n) number c =
    let rest = collect_blocks n (number + 1) c in
    elim (get_block_by_number number c) [ none ↦ rest | some b ↦ b ∷ rest ]

-- the range `start..=end`
unfoldable pub get_block_range : ℕ → ℕ → Blockchain → List Block
unfolding collect_blocks
get_block_range start last c = collect_blocks (last + 1 - start) start c

unfoldable pub get_recent_blocks : ℕ → Blockchain → Result BlockchainError (List Block)
unfolding get_block_range height
get_recent_blocks count c = and_then (height c) λ h. ok (get_block_range (h - count) h c)

abbrev pub all_transactions : List Block → List Transaction
all_transactions [] = []
all_transactions (b ∷ bs) = b.transactions ++ all_transactions bs

unfoldable pub get_transactions_in_range : ℕ → ℕ → Blockchain → List Transaction
unfolding get_block_range
get_transactions_in_range start last c = all_transactions (get_block_range start last c)

unfoldable pub get_total_gas_used : ℕ → ℕ → Blockchain → ℕ
unfolding get_block_range
get_total_gas_used start last c =
    sum_of (λ (b : Block). b.header.gas_used) (get_block_range start last c) % u64_mod

unfoldable pub get_transaction_count : ℕ → ℕ → Blockchain → ℕ
unfolding get_block_range
get_transaction_count start last c =
    sum_of (λ (b : Block). length b.transactions) (get_block_range start last c) % u64_mod

-- the `match` on the type in `execute_transaction_type`
unfoldable pub run_type : Address → TransactionType → WorldExec Unit
run_type from (TransactionType.transfer to amount) = World.transfer from to amount
run_type from (TransactionType.stake amount) = with_account from (Account.stake amount)
run_type from (TransactionType.unstake amount) = with_account from (Account.unstake amount)
run_type from (TransactionType.deploy_liquidity pool amount) =
    with_account from (Account.deploy_liquidity amount)
run_type from (TransactionType.withdraw_liquidity pool amount) =
    with_account from (Account.withdraw_liquidity amount)
run_type from (TransactionType.contract_deployment bytecode args) = pure tt
run_type from (TransactionType.contract_call contract input) = pure tt

-- the gas that every execution is charged
abbrev pub base_gas : ℕ
base_gas = 21000

-- what `execute_transaction_type` does to the world state
unfoldable pub apply_effects : Transaction → WorldExec Unit
apply_effects tx = do
  with_account tx.from Account.increment_nonce
  run_type tx.from tx.tx_type
  with_account tx.from (Account.sub_balance (calculate_fee tx base_gas))

module _ (host : Host) where
  -- `Blockchain::new`
  unfoldable pub new : Block → Result BlockchainError Blockchain
  new genesis_block =
      if not (is_genesis genesis_block)
      then err (invalid_chain not_genesis)
      else ok (record {
        blocks = insert (block_hash host genesis_block) genesis_block [];
        block_by_number = insert 0 (block_hash host genesis_block) [];
        head = block_hash host genesis_block;
        genesis = block_hash host genesis_block;
        state = empty_world;
        receipts = [];
      })

  abbrev pub link : Block → Blockchain → Blockchain
  link block c = record c {
    blocks = insert (block_hash host block) block c.blocks;
    block_by_number = insert (block_number block) (block_hash host block) c.block_by_number;
    head = block_hash host block;
  }

  unfoldable pub add_block : Block → ChainExec Unit
  add_block block = do
    found ← gets (get_block block.header.parent_hash)
    parent ← lift (ok_or found (block_not_found block.header.parent_hash))
    lift (validate host block parent)
    current_root ← gets λ c. state_root host c.state
    reject_if (not (block.header.state_root == current_root)) (invalid_block state_root_mismatch)
    head ← gets head_block
    lift head
    modify (link block)

  abbrev pub receipt_of : Transaction → ℕ → TransactionReceipt
  receipt_of tx number = record {
    tx_hash = transaction_hash host tx;
    block_number = number;
    from = tx.from;
    to = recipient tx;
    gas_used = base_gas;
    status = success;
    contract_address = none;
    logs = [];
  }

  abbrev pub store_receipt : Transaction → TransactionReceipt → Blockchain → Blockchain
  store_receipt tx receipt c = record c {
    receipts = insert (transaction_hash host tx) receipt c.receipts;
  }

  unfoldable pub execute_transaction_type : Transaction → ChainExec TransactionReceipt
  execute_transaction_type tx = do
    on_state (apply_effects tx)
    h ← gets height
    number ← lift h
    let receipt = receipt_of tx ((number + 1) % u64_mod)
    modify (store_receipt tx receipt)
    pure receipt

  -- the `match` on the result in `execute_transaction`
  abbrev pub settle :
      Result BlockchainError TransactionReceipt × Blockchain
      → Result BlockchainError TransactionReceipt × Blockchain
  settle (ok receipt, c) = (ok receipt, record c { state = World.commit c.state })
  settle (err e, c) = (err e, record c { state = World.rollback c.state })
  settle (panic, c) = (panic, c)

  unfoldable pub execute_transaction : Transaction → ChainExec TransactionReceipt
  execute_transaction tx = do
    lift (validate_basic tx)
    current_nonce ← gets λ c. get_nonce tx.from c.state
    reject_if (not (tx.nonce == current_nonce)) nonce_mismatch
    sender_balance ← gets λ c. get_balance tx.from c.state
    reject_if (ltb sender_balance ((tx.gas_limit * tx.gas_price) % u64_mod)) insufficient_balance
    modify λ (c : Blockchain). record c { state = World.checkpoint c.state }
    λ c. settle (execute_transaction_type tx c)

  -- the loop of `add_block_with_execution`
  unfoldable pub execute_all : List Transaction → ChainExec Unit
  execute_all [] = pure tt
  execute_all (tx ∷ txs) = do
    receipt ← execute_transaction tx
    modify (store_receipt tx receipt)
    execute_all txs

  unfoldable pub add_block_with_execution : Block → ChainExec Unit
  add_block_with_execution block = do
    execute_all block.transactions
    current_root ← gets λ c. state_root host c.state
    if not (block.header.state_root == current_root)
        then (do
          modify λ (c : Blockchain). record c { state = World.rollback c.state }
          lift (err (invalid_block state_root_mismatch_after_execution)))
        else add_block block

  -- the `filter_map` of `get_block_receipts`
  unfoldable pub collect_receipts : List Transaction → Blockchain → List TransactionReceipt
  collect_receipts [] c = []
  collect_receipts (tx ∷ txs) c =
      let rest = collect_receipts txs c in
      elim (get_receipt (transaction_hash host tx) c) [ none ↦ rest | some r ↦ r ∷ rest ]

  unfoldable pub get_block_receipts : ℕ → Blockchain → List TransactionReceipt
  unfolding collect_receipts get_block_by_number
  get_block_receipts number c = elim (get_block_by_number number c) [
    | none ↦ []
    | some b ↦ collect_receipts b.transactions c
  ]

  -- the inner loop of `find_transaction`
  unfoldable pub find_in_block : Hash → List Transaction → Option Transaction
  find_in_block tx_hash [] = none
  find_in_block tx_hash (tx ∷ txs) =
      if transaction_hash host tx == tx_hash then some tx else find_in_block tx_hash txs

  abbrev pub found_at : ℕ → Option Transaction → Option (ℕ × Transaction) → Option (ℕ × Transaction)
  found_at number none rest = rest
  found_at number (some tx) rest = some (number, tx)

  -- the outer loop, over the index in its order of iteration
  unfoldable pub find_indexed : Hash → Dict Hash → Dict Block → Option (ℕ × Transaction)
  unfolding find_in_block
  find_indexed tx_hash [] blocks = none
  find_indexed tx_hash ((number, hash) ∷ index) blocks =
      let rest = find_indexed tx_hash index blocks in
      elim (lookup hash blocks) [
        | none ↦ rest
        | some b ↦ found_at number (find_in_block tx_hash b.transactions) rest
      ]

  unfoldable pub find_transaction : Hash → Blockchain → Option (ℕ × Transaction)
  unfolding find_indexed
  find_transaction tx_hash c = find_indexed tx_hash c.block_by_number c.blocks

  -- the loop of `verify_chain`, with the rounds left first
  unfoldable pub verify_from : ℕ → ℕ → Block → Blockchain → Result BlockchainError Unit
  verify_from zero number current c = ok tt
  verify_from (suc n) number current c =
      and_then (ok_or (get_block_by_number number c) (invalid_chain missing_block))
        λ next. and_then (validate host next current) λ _. verify_from n (number + 1) next c

  unfoldable pub verify_chain : Blockchain → Result BlockchainError Unit
  unfolding verify_from
  verify_chain c =
      and_then (genesis_block c) λ current. and_then (height c) λ h. verify_from h 1 current c
