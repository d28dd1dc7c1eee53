-- ===== src/Core/Mempool/Runs.antt =====
-- The runs of the public operations of the pool.
use kainotes.Prelude.{ℕ, List, [], ◌∷◌}
use kainotes.Core.Types.{Address, Hash}
use kainotes.Core.Transaction.{Transaction}
use kainotes.Core.Host.{Host}
use kainotes.Core.Block.{transaction_hash}
use kainotes.Core.Mempool
use kainotes.Core.Mempool.{
  PoolConfig, PoolEntry, TransactionPool, pending, or_zero, or_new, remove_tx, add, put_pending,
  promote_one, promote_all, promote_queued, remove_txs, remove_included, remove_hashes, prune,
  clear, to_promote, outdated,
}

module _ (host : Host) where
  -- The pools that the public operations lead to from a new one.
  pub data Reached (config : PoolConfig) : TransactionPool → Type 0 where
    fresh : Reached config (Mempool.new config)
    after_add :
        {p : TransactionPool} (now : ℕ) (tx : Transaction) (current_nonce : ℕ)
        → Reached config p
        → Reached config (add host now tx current_nonce p).1
    after_remove :
        {p : TransactionPool} (hash : Hash) → Reached config p → Reached config (remove_tx hash p).1
    after_remove_included :
        {p : TransactionPool} (txs : List Transaction)
        → Reached config p
        → Reached config (remove_included host txs p)
    after_prune :
        {p : TransactionPool} (now : ℕ) → Reached config p → Reached config (prune host now p)
    after_clear : {p : TransactionPool} → Reached config p → Reached config (clear p)

  -- A property that each step on one transaction keeps.
  module _ (I : TransactionPool → Type 0)
      (keep_add : (now : ℕ) (tx : Transaction) (current_nonce : ℕ) (p : TransactionPool)
        → I p
        → I (add host now tx current_nonce p).1)
      (keep_remove : (hash : Hash) (p : TransactionPool) → I p → I (remove_tx hash p).1)
      (keep_promote : (at : Address × ℕ) (p : TransactionPool) → I p → I (promote_one host at p))
      (keep_clear : (p : TransactionPool) → I p → I (clear p)) where
    promote_all-keeps :
        (ats : List (Address × ℕ)) (p : TransactionPool) → I p → I (promote_all host ats p)
    unfolding promote_all
    promote_all-keeps [] p s = s
    promote_all-keeps (at ∷ ats) p s =
        promote_all-keeps ats (promote_one host at p) (keep_promote at p s)

    remove_txs-keeps :
        (txs : List Transaction) (p : TransactionPool) → I p → I (remove_txs host txs p)
    unfolding remove_txs
    remove_txs-keeps [] p s = s
    remove_txs-keeps (tx ∷ txs) p s =
        remove_txs-keeps txs (remove_tx (transaction_hash host tx) p).1
          (keep_remove (transaction_hash host tx) p s)

    remove_included-keeps :
        (txs : List Transaction) (p : TransactionPool) → I p → I (remove_included host txs p)
    unfolding remove_included promote_queued
    remove_included-keeps txs p s =
        promote_all-keeps _ (remove_txs host txs p) (remove_txs-keeps txs p s)

    remove_hashes-keeps :
        (hashes : List Hash) (p : TransactionPool) → I p → I (remove_hashes hashes p)
    unfolding remove_hashes
    remove_hashes-keeps [] p s = s
    remove_hashes-keeps (hash ∷ hashes) p s =
        remove_hashes-keeps hashes (remove_tx hash p).1 (keep_remove hash p s)

    prune-keeps : (now : ℕ) (p : TransactionPool) → I p → I (prune host now p)
    unfolding prune
    prune-keeps now p s = remove_hashes-keeps (outdated host now p) p s

    pub reached-keeps :
        (config : PoolConfig) (p : TransactionPool)
        → I (Mempool.new config)
        → Reached config p
        → I p
    reached-keeps config p s fresh = s
    reached-keeps config p s (after_add {p = q} now tx current_nonce r) =
        keep_add now tx current_nonce q (reached-keeps config q s r)
    reached-keeps config p s (after_remove {p = q} hash r) =
        keep_remove hash q (reached-keeps config q s r)
    reached-keeps config p s (after_remove_included {p = q} txs r) =
        remove_included-keeps txs q (reached-keeps config q s r)
    reached-keeps config p s (after_prune {p = q} now r) =
        prune-keeps now q (reached-keeps config q s r)
    reached-keeps config p s (after_clear {p = q} r) = keep_clear q (reached-keeps config q s r)
