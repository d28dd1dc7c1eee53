-- ===== src/Core/Mempool.antt =====
-- crates/blockchain-core/src/mempool.rs: the pool of transactions that wait for a block. `pending`
-- maps a gas price to the entries of that price by their hash, `queued` a sender to its entries by
-- their nonce. The clock is an argument.
pub mod Entries
pub mod Invariant
pub mod Removal
pub mod Growth
pub mod Runs
pub mod Promotion
pub mod Prices
pub mod Selection
mod Tests
use kainotes.Prelude.{
  ℕ, ◌+◌, ◌-◌, ◌%◌, Bool, true, false, Option, none, some, List, [], ◌∷◌, ◌++◌, length, ltb, leb,
  ◌==◌, if◌then◌else◌, filter_by, u64_mod,
}
use kainotes.Prelude.Result.{Result, ok, err, panic}
use kainotes.Prelude.Result.Exec.{Exec, pure, lift, gets, modify, reject_if, ◌>>=◌, ◌>>◌}
use kainotes.Dict.{Dict, lookup, insert, remove, contains, is_some, values}
use kainotes.Dict.Ordered.{insert_ordered}
use kainotes.Core.Types.{Hash, Address}
use kainotes.Core.Error.{
  BlockchainError, invalid_transaction, too_many_from_sender, gas_price_below_minimum,
  nonce_mismatch, pool_full, duplicate_transaction,
}
use kainotes.Core.Transaction.{Transaction, validate_basic, is_empty}
use kainotes.Core.Host.{Host}
use kainotes.Core.Block.{transaction_hash}

pub record PoolConfig : Type 0 where
  pub max_size : ℕ
  pub max_per_account : ℕ
  pub min_gas_price : ℕ
  pub max_age : ℕ
  pub enable_replacement : Bool

-- `PoolConfig::default`
abbrev pub default_config : PoolConfig
default_config = record {
  max_size = 10_000;
  max_per_account = 100;
  min_gas_price = 1;
  max_age = 3_600;
  enable_replacement = true;
}

pub record PoolMetrics : Type 0 where
  pub total_transactions : ℕ
  pub pending_count : ℕ
  pub queued_count : ℕ
  pub total_added : ℕ
  pub total_removed : ℕ
  pub total_replaced : ℕ

-- `PoolMetrics::default`
abbrev pub no_metrics : PoolMetrics
no_metrics = record {
  total_transactions = 0;
  pending_count = 0;
  queued_count = 0;
  total_added = 0;
  total_removed = 0;
  total_replaced = 0;
}

pub data TxStatus : Type 0 where
  pending queued rejected : TxStatus

pub record PoolEntry : Type 0 where
  pub transaction : Transaction
  pub added_at : ℕ
  pub status : TxStatus

pub record TransactionPool : Type 0 where
  pub config : PoolConfig
  pub pending : Dict (Dict PoolEntry)
  pub queued : Dict (Dict PoolEntry)
  pub by_hash : Dict Transaction
  pub by_sender : Dict ℕ
  pub metrics : PoolMetrics

abbrev pub PoolExec : Type 0 → Type 0
PoolExec = Exec BlockchainError TransactionPool

-- `TransactionPool::new`
unfoldable pub new : PoolConfig → TransactionPool
new config = record {
  config = config;
  pending = [];
  queued = [];
  by_hash = [];
  by_sender = [];
  metrics = no_metrics;
}

-- `+= 1` on a counter
abbrev pub raise : ℕ → ℕ
raise n = (n + 1) % u64_mod

-- the map that `entry` gives, a new one if there is none
abbrev pub or_new : Option (Dict PoolEntry) → Dict PoolEntry
or_new none = []
or_new (some d) = d

abbrev pub or_zero : Option ℕ → ℕ
or_zero none = 0
or_zero (some n) = n

-- `pending.entry(price).or_insert_with(HashMap::new).insert(hash, entry)`
unfoldable pub put_pending : ℕ → Hash → PoolEntry → Dict (Dict PoolEntry) → Dict (Dict PoolEntry)
put_pending price hash entry d =
    insert_ordered price (insert hash entry (or_new (lookup price d))) d

-- `queued.entry(sender).or_insert_with(BTreeMap::new).insert(nonce, entry)`
unfoldable pub put_queued : Address → ℕ → PoolEntry → Dict (Dict PoolEntry) → Dict (Dict PoolEntry)
put_queued sender nonce entry d =
    insert sender (insert_ordered nonce entry (or_new (lookup sender d))) d

-- The outer map with the inner map of a key gone when it is empty, and replaced otherwise.
abbrev pub put_back :
    (ℕ → Dict PoolEntry → Dict (Dict PoolEntry) → Dict (Dict PoolEntry))
    → ℕ
    → Dict PoolEntry
    → Dict (Dict PoolEntry)
    → Dict (Dict PoolEntry)
put_back store key [] d = remove key d
put_back store key (e ∷ es) d = store key (e ∷ es) d

-- One less if something was removed, never below zero.
abbrev pub lower_if : Bool → ℕ → ℕ
lower_if true n = n - 1
lower_if false n = n

unfoldable pub remove_from_pending : Hash → ℕ → TransactionPool → TransactionPool
remove_from_pending hash price p = elim (lookup price p.pending) [
  | none ↦ p
  | some tx_map ↦ record p {
    pending = put_back insert_ordered price (remove hash tx_map) p.pending;
    metrics = record (p.metrics) {
      pending_count = lower_if (is_some (lookup hash tx_map)) p.metrics.pending_count;
    };
  }
]

unfoldable pub remove_from_queued : Address → ℕ → TransactionPool → TransactionPool
remove_from_queued sender nonce p = elim (lookup sender p.queued) [
  | none ↦ p
  | some nonce_map ↦ record p {
    queued = put_back insert sender (remove nonce nonce_map) p.queued;
    metrics = record (p.metrics) {
      queued_count = lower_if (is_some (lookup nonce nonce_map)) p.metrics.queued_count;
    };
  }
]

-- the sender's count one less, and gone at zero
unfoldable pub lower_sender : Address → Dict ℕ → Dict ℕ
lower_sender sender d = elim (lookup sender d) [
  | none ↦ d
  | some count ↦ if count - 1 == 0 then remove sender d else insert sender (count - 1) d
]

-- `remove`, with the pool that is left
unfoldable pub remove_tx : Hash → TransactionPool → Option Transaction × TransactionPool
unfolding remove_from_pending remove_from_queued lower_sender
remove_tx hash p = elim (lookup hash p.by_hash) [
  | none ↦ (none, p)
  | some tx ↦
      let p1 = record p {
        by_hash = remove hash p.by_hash;
        by_sender = lower_sender tx.from p.by_sender;
      } in
      let p2 = remove_from_queued tx.from tx.nonce (remove_from_pending hash tx.gas_price p1) in
      (
        some tx,
        record p2 {
          metrics = record (p2.metrics) {
            total_removed = raise p2.metrics.total_removed;
            total_transactions = length p2.by_hash;
          };
        },
      )
]

-- the first hash of the lowest price
abbrev pub lowest : Dict (Dict PoolEntry) → Option Hash
lowest [] = none
lowest ((price, []) ∷ d) = none
lowest ((price, (hash, e) ∷ es) ∷ d) = some hash

unfoldable pub try_evict_lowest_gas : TransactionPool → Bool × TransactionPool
unfolding remove_tx
try_evict_lowest_gas p = elim (lowest p.pending) [
  | none ↦ (false, p)
  | some hash ↦ (true, (remove_tx hash p).1)
]

-- the eviction in `add`
unfoldable pub make_room : PoolExec Unit
unfolding try_evict_lowest_gas
make_room p =
    if leb p.config.max_size (length p.by_hash)
    then (let (evicted, p1) = try_evict_lowest_gas p in
        if evicted then (ok tt, p1) else (err pool_full, p1))
    else (ok tt, p)

-- the pairs of a sender and its lowest nonce
abbrev pub to_promote : Dict (Dict PoolEntry) → List (Address × ℕ)
to_promote [] = []
to_promote ((sender, []) ∷ d) = to_promote d
to_promote ((sender, (nonce, e) ∷ es) ∷ d) = (sender, nonce) ∷ to_promote d

-- the last loop of `prune`
unfoldable pub remove_hashes : List Hash → TransactionPool → TransactionPool
unfolding remove_tx
remove_hashes [] p = p
remove_hashes (hash ∷ hashes) p = remove_hashes hashes (remove_tx hash p).1

-- the entries of all inner maps, in the order of two nested loops
abbrev pub flatten : List (Dict PoolEntry) → Dict PoolEntry
flatten [] = []
flatten (d ∷ ds) = d ++ flatten ds

abbrev pub old_keys : (PoolEntry → Bool) → Dict PoolEntry → List Hash
old_keys is_old [] = []
old_keys is_old ((hash, e) ∷ es) =
    let rest = old_keys is_old es in if is_old e then hash ∷ rest else rest

-- the nested loops of `get_pending` over the entries in their order, with the gas and the number of
-- the transactions taken so far; the sum is one of 64-bit words
unfoldable pub take_fitting : ℕ → ℕ → ℕ → ℕ → List PoolEntry → List Transaction
take_fitting max_gas max_count total_gas taken [] = []
take_fitting max_gas max_count total_gas taken (e ∷ es) =
    let total = (total_gas + e.transaction.gas_limit) % u64_mod in
    elim (ltb max_gas total) [
      | true ↦ take_fitting max_gas max_count total_gas taken es
      | false ↦ elim (leb max_count taken) [
        | true ↦ []
        | false ↦ e.transaction ∷ take_fitting max_gas max_count total (taken + 1) es
      ]
    ]

-- the pending entries from the highest gas price to the lowest
abbrev pub highest_first : Dict (Dict PoolEntry) → List PoolEntry
highest_first [] = []
highest_first ((price, tx_map) ∷ d) = highest_first d ++ values tx_map

unfoldable pub get_pending : ℕ → ℕ → TransactionPool → List Transaction
unfolding take_fitting
get_pending max_gas max_count p = take_fitting max_gas max_count 0 0 (highest_first p.pending)

unfoldable pub get : Hash → TransactionPool → Option Transaction
get hash p = lookup hash p.by_hash

unfoldable pub get_by_sender : Address → TransactionPool → List Transaction
get_by_sender sender p = filter_by (λ (tx : Transaction). tx.from == sender) (values p.by_hash)

unfoldable pub pending_count : TransactionPool → ℕ
pending_count p = p.metrics.pending_count

unfoldable pub queued_count : TransactionPool → ℕ
queued_count p = p.metrics.queued_count

unfoldable pub clear : TransactionPool → TransactionPool
unfolding new
clear p = new p.config

module _ (host : Host) where
  abbrev pub entry_of : Transaction → ℕ → TxStatus → PoolEntry
  entry_of tx now status = record { transaction = tx; added_at = now; status = status }

  -- the `match` on the status
  unfoldable pub place : Transaction → ℕ → TxStatus → TransactionPool → TransactionPool
  place tx now pending p = record p {
    pending =
        put_pending tx.gas_price (transaction_hash host tx) (entry_of tx now pending) p.pending;
    metrics = record (p.metrics) { pending_count = raise p.metrics.pending_count };
  }
  place tx now queued p = record p {
    queued = put_queued tx.from tx.nonce (entry_of tx now queued) p.queued;
    metrics = record (p.metrics) { queued_count = raise p.metrics.queued_count };
  }
  place tx now rejected p = p

  -- the updates at the end of `add`
  unfoldable pub track : Transaction → TransactionPool → TransactionPool
  track tx p =
      let by_hash = insert (transaction_hash host tx) tx p.by_hash in
      record p {
        by_hash = by_hash;
        by_sender = insert tx.from (raise (or_zero (lookup tx.from p.by_sender))) p.by_sender;
        metrics = record (p.metrics) {
          total_added = raise p.metrics.total_added;
          total_transactions = length by_hash;
        };
      }

  -- the status by the nonce
  abbrev pub status_of : Transaction → ℕ → Result BlockchainError TxStatus
  status_of tx current_nonce =
      if tx.nonce == current_nonce
      then ok pending
      else if ltb current_nonce tx.nonce
      then ok queued
      else err nonce_mismatch

  -- `add`, at the time `now`
  unfoldable pub add : ℕ → Transaction → ℕ → PoolExec Unit
  unfolding contains
  add now tx current_nonce = do
    lift (validate_basic tx)
    known ← gets λ p. contains (transaction_hash host tx) p.by_hash
    reject_if known (duplicate_transaction (transaction_hash host tx))
    make_room
    sender_count ← gets λ p. or_zero (lookup tx.from p.by_sender)
    max_per_account ← gets λ (p : TransactionPool). p.config.max_per_account
    reject_if (leb max_per_account sender_count) (invalid_transaction too_many_from_sender)
    min_gas_price ← gets λ (p : TransactionPool). p.config.min_gas_price
    reject_if (ltb tx.gas_price min_gas_price) (invalid_transaction gas_price_below_minimum)
    status ← lift (status_of tx current_nonce)
    modify (place tx now status)
    modify (track tx)

  unfoldable pub promote_one : Address × ℕ → TransactionPool → TransactionPool
  promote_one (sender, nonce) p = elim (lookup sender p.queued) [
    | none ↦ p
    | some nonce_map ↦ elim (lookup nonce nonce_map) [
      | none ↦ p
      | some entry ↦
          let tx = entry.transaction in
          record p {
            queued = insert sender (remove nonce nonce_map) p.queued;
            pending =
                put_pending tx.gas_price (transaction_hash host tx)
                  (record entry { status = pending }) p.pending;
            metrics = record (p.metrics) {
              pending_count = raise p.metrics.pending_count;
              queued_count = p.metrics.queued_count - 1;
            };
          }
    ]
  ]

  unfoldable pub promote_all : List (Address × ℕ) → TransactionPool → TransactionPool
  promote_all [] p = p
  promote_all (at ∷ rest) p = promote_all rest (promote_one at p)

  unfoldable pub promote_queued : TransactionPool → TransactionPool
  promote_queued p = promote_all (to_promote p.queued) p

  -- the loop of `remove_included`
  unfoldable pub remove_txs : List Transaction → TransactionPool → TransactionPool
  remove_txs [] p = p
  remove_txs (tx ∷ txs) p = remove_txs txs (remove_tx (transaction_hash host tx) p).1

  unfoldable pub remove_included : List Transaction → TransactionPool → TransactionPool
  unfolding remove_txs promote_queued
  remove_included transactions p = promote_queued (remove_txs transactions p)

  abbrev pub queued_hashes : List PoolEntry → List Hash
  queued_hashes [] = []
  queued_hashes (e ∷ es) = transaction_hash host e.transaction ∷ queued_hashes es

  -- the hashes that `prune` finds too old
  unfoldable pub outdated : ℕ → TransactionPool → List Hash
  outdated now p =
      let is_old = λ (e : PoolEntry). ltb p.config.max_age (now - e.added_at) in
      old_keys is_old (flatten (values p.pending))
      ++ queued_hashes (filter_by is_old (values (flatten (values p.queued))))

  -- `prune`, at the time `now`
  unfoldable pub prune : ℕ → TransactionPool → TransactionPool
  unfolding outdated
  prune now p = remove_hashes (outdated now p) p
