-- ===== src/Core/Mempool/Removal.antt =====
-- Removals from the pool, `remove` of crates/blockchain-core/src/mempool.rs, and its invariant.
use kainotes.Prelude.{
  ℕ, ◌+◌, ◌≡◌, ◌≢◌, refl, sym, ap, ◌∙◌, subst, ◌&&◌, some, none, arith, length, ◌==◌, if◌then◌else◌,
  Option-cases, inl, inr,
}
use kainotes.Dict.{Dict, lookup, remove, IsDistinct}
use kainotes.Dict.Laws.{lookup-remove, remove-IsDistinct}
use kainotes.Dict.Sums.{total-remove, length-remove}
use kainotes.Core.Types.{Address, Hash}
use kainotes.Core.Transaction.{Transaction}
use kainotes.Core.Host.{Host}
use kainotes.Core.Block.{transaction_hash}
use kainotes.Core.Mempool
use kainotes.Core.Mempool.{
  PoolEntry, TransactionPool, or_zero, remove_tx, remove_from_pending, remove_from_queued,
  lower_sender,
}
use kainotes.Core.Mempool.Entries.{
  entry_at, entry_at-remove_from_pending, entry_at-remove_from_queued, lookup-lower_sender,
}
use kainotes.Core.Mempool.Invariant.{IsSound, is_from, sent}

-- What a removal that found its transaction has done.
pub record IsRemoved (hash : Hash) (tx : Transaction) (p q : TransactionPool) : Type 0 where
  pub config : q.config ≡ p.config
  pub by_hash : q.by_hash ≡ remove hash p.by_hash
  pub by_sender : q.by_sender ≡ lower_sender tx.from p.by_sender
  pub pending :
      (i j : ℕ)
      → entry_at i j q.pending
        ≡ (if tx.gas_price == i && hash == j then none else entry_at i j p.pending)
  pub queued :
      (i j : ℕ)
      → entry_at i j q.queued
        ≡ (if tx.from == i && tx.nonce == j then none else entry_at i j p.queued)
  pub size_reported : q.metrics.total_transactions ≡ length q.by_hash

-- Removing an entry from one of the two-level maps leaves the rest of the pool alone.
record KeepsRest (p q : TransactionPool) : Type 0 where
  config : q.config ≡ p.config
  by_hash : q.by_hash ≡ p.by_hash
  by_sender : q.by_sender ≡ p.by_sender

remove_from_pending-KeepsRest :
    (hash : Hash) (price : ℕ) (p : TransactionPool)
    → KeepsRest p (remove_from_pending hash price p)
      × ((remove_from_pending hash price p).queued ≡ p.queued)
unfolding remove_from_pending
remove_from_pending-KeepsRest hash price p = ground arith

remove_from_queued-KeepsRest :
    (sender : Address) (nonce : ℕ) (p : TransactionPool)
    → KeepsRest p (remove_from_queued sender nonce p)
      × ((remove_from_queued sender nonce p).pending ≡ p.pending)
unfolding remove_from_queued
remove_from_queued-KeepsRest sender nonce p = ground arith

module _ (hash : Hash) (tx : Transaction) (p : TransactionPool) where
  -- The pool after each step of the removal.
  abbrev untracked : TransactionPool
  untracked = record p {
    by_hash = remove hash p.by_hash;
    by_sender = lower_sender tx.from p.by_sender;
  }

  abbrev unpended : TransactionPool
  unpended = remove_from_pending hash tx.gas_price untracked

  abbrev unqueued : TransactionPool
  unqueued = remove_from_queued tx.from tx.nonce unpended

  remove_tx-found :
      lookup hash p.by_hash ≡ some tx
      → (remove_tx hash p).1 ≡ record unqueued {
        metrics = record (unqueued.metrics) {
          total_removed = Mempool.raise unqueued.metrics.total_removed;
          total_transactions = length unqueued.by_hash;
        };
      }
  unfolding remove_tx
  remove_tx-found found = rw (found, remove_tx) refl

  pub remove_tx-IsRemoved :
      lookup hash p.by_hash ≡ some tx → IsRemoved hash tx p (remove_tx hash p).1
  remove_tx-IsRemoved found =
      let (a, queue) = remove_from_pending-KeepsRest hash tx.gas_price untracked in
      let (b, pend) = remove_from_queued-KeepsRest tx.from tx.nonce unpended in
      subst (IsRemoved hash tx p) (sym (remove_tx-found found)) (record {
        config = b.config ∙ a.config;
        by_hash = b.by_hash ∙ a.by_hash;
        by_sender = b.by_sender ∙ a.by_sender;
        pending = λ i j.
            ap (entry_at i j) pend ∙ entry_at-remove_from_pending i j hash tx.gas_price untracked;
        queued = λ i j.
            entry_at-remove_from_queued i j tx.from tx.nonce unpended
            ∙ ap (λ d. if tx.from == i && tx.nonce == j then none else entry_at i j d) queue;
        size_reported = refl;
      })

pub remove_tx-absent :
    (hash : Hash) (p : TransactionPool)
    → lookup hash p.by_hash ≡ none
    → remove_tx hash p ≡ (none, p)
unfolding remove_tx
remove_tx-absent hash p absent = rw (absent, remove_tx) refl

sent-remove :
    (hash : Hash) (tx : Transaction) (s : Address) (d : Dict Transaction)
    → IsDistinct d
    → lookup hash d ≡ some tx
    → sent s (remove hash d) + is_from s tx ≡ sent s d
sent-remove hash tx s d distinct found =
    ground (arith, total-remove (is_from s) hash d distinct, found)

pub remove_tx-gone :
    (hash : Hash) (p : TransactionPool) → lookup hash (remove_tx hash p).1.by_hash ≡ none
remove_tx-gone hash p = elim (Option-cases (lookup hash p.by_hash)) [
  | inl absent ↦ ap (λ x. lookup hash x.1.by_hash) (remove_tx-absent hash p absent) ∙ absent
  | inr (tx, found) ↦
      ap (lookup hash) ((remove_tx-IsRemoved hash tx p found).by_hash)
      ∙ ground (arith, lookup-remove hash hash p.by_hash)
]

module _ (host : Host) where
  module _ (hash : Hash) (tx : Transaction) (p q : TransactionPool)
      (found : lookup hash p.by_hash ≡ some tx) (r : IsRemoved hash tx p q)
      (s : IsSound host p) where
    left : (k : Hash) → lookup k q.by_hash ≡ (if hash == k then none else lookup k p.by_hash)
    left k = rw r.by_hash (lookup-remove k hash p.by_hash)

    removed_pending :
        (price : ℕ) (h : Hash) (e : PoolEntry)
        → entry_at price h q.pending ≡ some e
        → (e.transaction.gas_price ≡ price)
          × (transaction_hash host e.transaction ≡ h)
          × (lookup h q.by_hash ≡ some e.transaction)
    removed_pending price h e at =
        ground (arith, at, r.pending price h, s.pending_known price h e, left h, found)

    removed_queued :
        (sender : Address) (nonce : ℕ) (e : PoolEntry)
        → entry_at sender nonce q.queued ≡ some e
        → (e.transaction.from ≡ sender)
          × (e.transaction.nonce ≡ nonce)
          × (lookup (transaction_hash host e.transaction) q.by_hash ≡ some e.transaction)
    removed_queued sender nonce e at = ground (
      arith,
      at,
      r.queued sender nonce,
      s.queued_known sender nonce e,
      left (transaction_hash host e.transaction),
      found,
    )

    removed_count : (a : Address) → sent a q.by_hash + is_from a tx ≡ sent a p.by_hash
    removed_count a = rw r.by_hash (sent-remove hash tx a p.by_hash s.distinct found)

    removed_size : length q.by_hash + 1 ≡ length p.by_hash
    removed_size = rw r.by_hash (length-remove hash tx p.by_hash s.distinct found)

    removed-IsSound : IsSound host q
    removed-IsSound = record {
      pending_known = removed_pending;
      queued_known = removed_queued;
      keyed = λ h t at. ground (arith, at, left h, s.keyed h t);
      distinct = rw r.by_hash (remove-IsDistinct hash p.by_hash s.distinct);
      counted = λ a.
          rw r.by_sender (
            ground
              (arith, lookup-lower_sender a tx.from p.by_sender, s.counted a, removed_count a));
      sender_bound = λ a. rw r.config (omega (arith, removed_count a, s.sender_bound a));
      word_sized = rw r.config s.word_sized;
      size_bound = ground (arith, r.config, s.size_bound, removed_size);
      size_reported = r.size_reported;
    }

  -- A removal keeps the invariant, whether it finds its transaction or not.
  pub remove_tx-IsSound :
      (hash : Hash) (p : TransactionPool) → IsSound host p → IsSound host (remove_tx hash p).1
  remove_tx-IsSound hash p s = elim (Option-cases (lookup hash p.by_hash)) [
    | inl absent ↦
        subst (λ x. IsSound host x) (sym (ap (λ x. x.1) (remove_tx-absent hash p absent))) s
    | inr (tx, found) ↦
        removed-IsSound hash tx p (remove_tx hash p).1 found (remove_tx-IsRemoved hash tx p found) s
  ]

  pub remove_tx-size :
      (hash : Hash) (tx : Transaction) (p : TransactionPool)
      → IsSound host p
      → lookup hash p.by_hash ≡ some tx
      → length (remove_tx hash p).1.by_hash + 1 ≡ length p.by_hash
  remove_tx-size hash tx p s found =
      removed_size hash tx p (remove_tx hash p).1 found (remove_tx-IsRemoved hash tx p found) s

  -- After a removal from a pool with the invariant, the hash is not known, no pending entry stands
  -- under it at any price, and no queued entry has it.
  remove_forgets :
      (hash : Hash) (p : TransactionPool)
      → IsSound host p
      → let q = (remove_tx hash p).1 in
        (lookup hash q.by_hash ≡ none)
        × ((price : ℕ) → entry_at price hash q.pending ≡ none)
        × ((sender nonce : ℕ) (e : PoolEntry)
            → entry_at sender nonce q.queued ≡ some e
            → transaction_hash host e.transaction ≢ hash)
  remove_forgets hash p s =
      let sound = remove_tx-IsSound hash p s in
      let gone = remove_tx-gone hash p in
      let pending_gone : (price : ℕ) → entry_at price hash (remove_tx hash p).1.pending ≡ none =
        λ price. elim (Option-cases (entry_at price hash (remove_tx hash p).1.pending)) [
          | inl none_left ↦ none_left
          | inr (e, at) ↦ absurd (ground (arith, sound.pending_known price hash e at, gone))
        ] in
      (
        gone,
        pending_gone,
        λ sender nonce e at same. ground (arith, sound.queued_known sender nonce e at, gone, same),
      )
