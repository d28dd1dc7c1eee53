-- ===== src/Core/Mempool/Promotion.antt =====
-- Promotions of queued transactions, and the runs of the pool against its invariant.
use kainotes.Prelude.{
  ℕ, ◌<◌, ◌≡◌, refl, sym, ap, ◌∙◌, ◌⊎◌, some, arith, length, Option-cases, inl, inr, u64_mod,
}
use kainotes.Dict.{lookup, remove}
use kainotes.Dict.Laws.{lookup-insert, lookup-remove}
use kainotes.Core.Types.{Address}
use kainotes.Core.Host.{Host}
use kainotes.Core.Block.{transaction_hash}
use kainotes.Core.Mempool.{
  PoolConfig, PoolEntry, TransactionPool, pending, put_pending, promote_one, clear,
}
use kainotes.Core.Mempool.Entries.{entry_at, entry_at-put_pending}
use kainotes.Core.Mempool.Invariant.{IsSound, new-IsSound}
use kainotes.Core.Mempool.Removal.{remove_tx-IsSound}
use kainotes.Core.Mempool.Runs.{Reached, reached-keeps}
use kainotes.Core.Mempool.Growth.{add-IsSound}

-- What the promotion of an entry that it found has done.
record IsPromoted (host : Host) (sender : Address) (nonce : ℕ) (e : PoolEntry)
    (p q : TransactionPool) : Type 0 where
  found : entry_at sender nonce p.queued ≡ some e
  config : q.config ≡ p.config
  by_hash : q.by_hash ≡ p.by_hash
  by_sender : q.by_sender ≡ p.by_sender
  total : q.metrics.total_transactions ≡ p.metrics.total_transactions
  pending_at :
      (i j : ℕ)
      → entry_at i j q.pending
        ≡ entry_at i j (
            put_pending e.transaction.gas_price
              (transaction_hash host e.transaction)
              (record e { status = pending })
              p.pending)
  queued_at :
      (i j : ℕ) (f : PoolEntry) → entry_at i j q.queued ≡ some f → entry_at i j p.queued ≡ some f

module _ (host : Host) where
  promote_one-cases :
      (sender : Address) (nonce : ℕ) (p : TransactionPool)
      → (promote_one host (sender, nonce) p ≡ p)
        ⊎ (e : PoolEntry) × IsPromoted host sender nonce e p (promote_one host (sender, nonce) p)
  unfolding promote_one
  promote_one-cases sender nonce p = elim (Option-cases (lookup sender p.queued)) [
    | inl absent ↦ inl (rw (absent, promote_one) refl)
    | inr (m, found) ↦ elim (Option-cases (lookup nonce m)) [
      | inl absent ↦ inl (rw (found, absent, promote_one) refl)
      | inr (e, at) ↦ inr (
        e,
        rw (found, at, promote_one)
            (record {
              found = rw found at;
              config = refl;
              by_hash = refl;
              by_sender = refl;
              total = refl;
              pending_at = λ i j. refl;
              queued_at = λ i j f h. ground (
                arith,
                h,
                found,
                lookup-insert i sender (remove nonce m) p.queued,
                lookup-remove j nonce m,
              );
            }),
      )
    ]
  ]

  promoted-IsSound :
      (sender : Address) (nonce : ℕ) (e : PoolEntry) (p q : TransactionPool)
      → IsPromoted host sender nonce e p q
      → IsSound host p
      → IsSound host q
  promoted-IsSound sender nonce e p q r s = record {
    pending_known = λ price h f at. rw r.by_hash (
        ground (
          arith,
          at,
          r.pending_at price h,
          s.pending_known price h f,
          s.queued_known sender nonce e r.found,
          entry_at-put_pending price h e.transaction.gas_price (transaction_hash host e.transaction)
              (record e { status = pending }) p.pending,
        ));
    queued_known = λ i j f at. rw r.by_hash (s.queued_known i j f (r.queued_at i j f at));
    keyed = rw r.by_hash s.keyed;
    distinct = rw r.by_hash s.distinct;
    counted = rw (r.by_hash, r.by_sender) s.counted;
    sender_bound = rw (r.by_hash, r.config) s.sender_bound;
    word_sized = rw r.config s.word_sized;
    size_bound = rw (r.by_hash, r.config) s.size_bound;
    size_reported = r.total ∙ s.size_reported ∙ ap length (sym r.by_hash);
  }

  promote_one-IsSound :
      (at : Address × ℕ) (p : TransactionPool)
      → IsSound host p
      → IsSound host (promote_one host at p)
  promote_one-IsSound (sender, nonce) p s = elim (promote_one-cases sender nonce p) [
    | inl same ↦ rw same s
    | inr (e, r) ↦ promoted-IsSound sender nonce e p (promote_one host (sender, nonce) p) r s
  ]

  -- In every pool that the public operations lead to from a new one, whose limit for an account is a
  -- 64-bit word: each pending entry stands under its gas price and its hash, each queued one under
  -- its sender and its nonce, and both are known by their hash; each transaction known by a hash has
  -- that hash; the count of each sender is the number of its transactions and within the limit for an
  -- account; and the number of transactions is the one reported and within the limit of the pool.
  pub Reached-IsSound :
      (config : PoolConfig) (p : TransactionPool)
      → config.max_per_account < u64_mod
      → Reached host config p
      → IsSound host p
  unfolding clear
  Reached-IsSound config p small r =
      reached-keeps host (IsSound host) (add-IsSound host) (remove_tx-IsSound host)
        promote_one-IsSound (λ q s. new-IsSound host q.config s.word_sized) config p
        (new-IsSound host config small) r
