-- ===== src/Core/Mempool/Invariant.antt =====
-- The invariant of the pool of crates/blockchain-core/src/mempool.rs, and the new pool.
use kainotes.Prelude.{ℕ, ◌≤◌, ◌<◌, u64_mod, ◌≡◌, refl, some, arith, length, ◌==◌, if◌then◌else◌}
use kainotes.Dict.{Dict, lookup, IsDistinct}
use kainotes.Dict.Sums.{total}
use kainotes.Core.Types.{Address, Hash}
use kainotes.Core.Transaction.{Transaction}
use kainotes.Core.Host.{Host}
use kainotes.Core.Block.{transaction_hash}
use kainotes.Core.Mempool
use kainotes.Core.Mempool.{PoolConfig, PoolEntry, TransactionPool, or_zero}
use kainotes.Core.Mempool.Entries.{entry_at}

-- Whether a sender sent it, as a number.
abbrev pub is_from : Address → Transaction → ℕ
is_from sender tx = if tx.from == sender then 1 else 0

-- How many transactions of a sender a map holds.
abbrev pub sent : Address → Dict Transaction → ℕ
sent sender d = total (is_from sender) d

module _ (host : Host) where
  pub record IsSound (p : TransactionPool) : Type 0 where
    pub pending_known :
        (price : ℕ) (hash : Hash) (e : PoolEntry)
        → entry_at price hash p.pending ≡ some e
        → (e.transaction.gas_price ≡ price)
          × (transaction_hash host e.transaction ≡ hash)
          × (lookup hash p.by_hash ≡ some e.transaction)
    pub queued_known :
        (sender : Address) (nonce : ℕ) (e : PoolEntry)
        → entry_at sender nonce p.queued ≡ some e
        → (e.transaction.from ≡ sender)
          × (e.transaction.nonce ≡ nonce)
          × (lookup (transaction_hash host e.transaction) p.by_hash ≡ some e.transaction)
    pub keyed :
        (hash : Hash) (tx : Transaction)
        → lookup hash p.by_hash ≡ some tx
        → transaction_hash host tx ≡ hash
    pub distinct : IsDistinct p.by_hash
    pub counted : (s : Address) → or_zero (lookup s p.by_sender) ≡ sent s p.by_hash
    pub sender_bound : (s : Address) → sent s p.by_hash ≤ p.config.max_per_account
    -- `max_per_account` is a word.
    pub word_sized : p.config.max_per_account < u64_mod
    pub size_bound : length p.by_hash ≤ p.config.max_size
    pub size_reported : p.metrics.total_transactions ≡ length p.by_hash

  pub new-IsSound :
      (config : PoolConfig) → config.max_per_account < u64_mod → IsSound (Mempool.new config)
  unfolding Mempool.new lookup
  new-IsSound config small = record {
    pending_known = λ price hash e h. cc;
    queued_known = λ sender nonce e h. cc;
    keyed = λ hash tx h. cc;
    distinct = tt;
    counted = λ s. refl;
    sender_bound = λ s. omega arith;
    word_sized = small;
    size_bound = omega arith;
    size_reported = refl;
  }
