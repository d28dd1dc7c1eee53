-- ===== src/Core/Mempool/Growth.antt =====
-- Additions to the pool, `add` of crates/blockchain-core/src/mempool.rs, and its invariant.
use kainotes.Prelude.{
  ℕ, ◌+◌, ◌<◌, ◌≡◌, refl, ◌⊎◌, subst, some, none, [], ◌∷◌, arith, length, ◌==◌, if◌then◌else◌,
  Option-cases, Bool-cases, inl, inr, leb,
}
use kainotes.Prelude.Result.{Result, ok, err}
use kainotes.Dict.{Dict, lookup, insert, contains}
use kainotes.Dict.Laws.{lookup-insert, lookup-remove, insert-IsDistinct}
use kainotes.Core.Error.{BlockchainError, pool_full}
use kainotes.Dict.Sums.{total-insert, length-insert_new}
use kainotes.Core.Types.{Address, Hash}
use kainotes.Core.Transaction.{Transaction}
use kainotes.Core.Host.{Host}
use kainotes.Core.Block.{transaction_hash}
use kainotes.Core.Mempool.{
  PoolEntry, TransactionPool, TxStatus, pending, queued, rejected, or_zero, raise, remove_tx,
  try_evict_lowest_gas, lowest, make_room, place, track, add, entry_of,
}
use kainotes.Core.Mempool.Entries.{entry_at, entry_at-put_pending, entry_at-put_queued}
use kainotes.Core.Mempool.Invariant.{IsSound, is_from, sent}
use kainotes.Core.Mempool.Removal.{remove_tx-IsRemoved, remove_tx-IsSound, remove_tx-size}

sent-insert :
    (hash : Hash) (tx : Transaction) (s : Address) (d : Dict Transaction)
    → lookup hash d ≡ none
    → sent s (insert hash tx d) ≡ sent s d + is_from s tx
sent-insert hash tx s d absent = ground (arith, total-insert (is_from s) hash tx d, absent)

-- What the end of `add` has done.
record IsTracked (host : Host) (tx : Transaction) (p q : TransactionPool) : Type 0 where
  config : q.config ≡ p.config
  by_hash : q.by_hash ≡ insert (transaction_hash host tx) tx p.by_hash
  by_sender :
      q.by_sender ≡ insert tx.from (raise (or_zero (lookup tx.from p.by_sender))) p.by_sender
  pending_from :
      (i j : ℕ) (e : PoolEntry)
      → entry_at i j q.pending ≡ some e
      → (e.transaction ≡ tx) × (tx.gas_price ≡ i) × (transaction_hash host tx ≡ j)
        ⊎ (entry_at i j p.pending ≡ some e)
  queued_from :
      (i j : ℕ) (e : PoolEntry)
      → entry_at i j q.queued ≡ some e
      → (e.transaction ≡ tx) × (tx.from ≡ i) × (tx.nonce ≡ j) ⊎ (entry_at i j p.queued ≡ some e)
  size_reported : q.metrics.total_transactions ≡ length q.by_hash

track-IsTracked :
    (host : Host) (now : ℕ) (tx : Transaction) (status : TxStatus) (p : TransactionPool)
    → IsTracked host tx p (track host tx (place host tx now status p))
unfolding track place
track-IsTracked host now tx pending p = record {
  config = refl;
  by_hash = refl;
  by_sender = refl;
  pending_from = λ i j e at. ground (
    arith,
    at,
    entry_at-put_pending i j tx.gas_price (transaction_hash host tx) (entry_of host tx now pending)
        p.pending,
  );
  queued_from = λ i j e at. inr at;
  size_reported = refl;
}
track-IsTracked host now tx queued p = record {
  config = refl;
  by_hash = refl;
  by_sender = refl;
  pending_from = λ i j e at. inr at;
  queued_from = λ i j e at.
      ground (
        arith,
        at,
        entry_at-put_queued i j tx.from tx.nonce (entry_of host tx now queued) p.queued,
      );
  size_reported = refl;
}
track-IsTracked host now tx rejected p = record {
  config = refl;
  by_hash = refl;
  by_sender = refl;
  pending_from = λ i j e at. inr at;
  queued_from = λ i j e at. inr at;
  size_reported = refl;
}

module _ (host : Host) where
  -- An addition that has passed the checks of `add`.
  module _ (tx : Transaction) (p q : TransactionPool) (t : IsTracked host tx p q)
      (absent : lookup (transaction_hash host tx) p.by_hash ≡ none)
      (room : length p.by_hash < p.config.max_size)
      (few : sent tx.from p.by_hash < p.config.max_per_account) (s : IsSound host p) where
    kept :
        (k : Hash)
        → lookup k q.by_hash
          ≡ (if transaction_hash host tx == k then some tx else lookup k p.by_hash)
    kept k = rw t.by_hash (lookup-insert k (transaction_hash host tx) tx p.by_hash)

    added_count : (a : Address) → sent a q.by_hash ≡ sent a p.by_hash + is_from a tx
    added_count a = rw t.by_hash (sent-insert (transaction_hash host tx) tx a p.by_hash absent)

    added_size : length q.by_hash ≡ length p.by_hash + 1
    added_size = rw t.by_hash (length-insert_new (transaction_hash host tx) tx p.by_hash absent)

    added_pending :
        (price : ℕ) (h : Hash) (e : PoolEntry)
        → entry_at price h q.pending ≡ some e
        → (e.transaction.gas_price ≡ price)
          × (transaction_hash host e.transaction ≡ h)
          × (lookup h q.by_hash ≡ some e.transaction)
    added_pending price h e at =
        ground (arith, t.pending_from price h e at, s.pending_known price h e, kept h, absent)

    added_queued :
        (sender : Address) (nonce : ℕ) (e : PoolEntry)
        → entry_at sender nonce q.queued ≡ some e
        → (e.transaction.from ≡ sender)
          × (e.transaction.nonce ≡ nonce)
          × (lookup (transaction_hash host e.transaction) q.by_hash ≡ some e.transaction)
    added_queued sender nonce e at = ground (
      arith,
      t.queued_from sender nonce e at,
      s.queued_known sender nonce e,
      kept (transaction_hash host e.transaction),
      absent,
    )

    added-IsSound : IsSound host q
    added-IsSound = record {
      pending_known = added_pending;
      queued_known = added_queued;
      keyed = λ h x at. ground (arith, at, kept h, s.keyed h x);
      distinct =
          rw t.by_hash (insert-IsDistinct (transaction_hash host tx) tx p.by_hash s.distinct);
      counted = λ a. rw t.by_sender (
          ground (
            arith,
            s.counted a,
            s.counted tx.from,
            added_count a,
            few,
            s.word_sized,
            lookup-insert a tx.from (raise (or_zero (lookup tx.from p.by_sender))) p.by_sender,
          ));
      sender_bound = λ a. rw t.config (ground (arith, added_count a, s.sender_bound a, few));
      word_sized = rw t.config s.word_sized;
      size_bound = rw t.config (omega (arith, added_size, room));
      size_reported = t.size_reported;
    }

lowest-known :
    (d : Dict (Dict PoolEntry)) (hash : Hash)
    → lowest d ≡ some hash
    → (price : ℕ) × (e : PoolEntry) × (entry_at price hash d ≡ some e)
unfolding lookup
lowest-known [] hash h = cc
lowest-known ((price, []) ∷ d) hash h = cc
lowest-known ((price, (k, e) ∷ es) ∷ d) hash h = (price, e, ground (arith, h))

-- A pool with room for one more transaction, without new ones.
record HasRoom (host : Host) (p q : TransactionPool) : Type 0 where
  sound : IsSound host q
  room : length q.by_hash < q.config.max_size
  config : q.config ≡ p.config
  fewer : (k : Hash) → lookup k p.by_hash ≡ none → lookup k q.by_hash ≡ none

module _ (host : Host) where
  evicted :
      (hash : Hash) (p : TransactionPool)
      → IsSound host p
      → lowest p.pending ≡ some hash
      → HasRoom host p (remove_tx hash p).1
  evicted hash p s h =
      let (price, e, at) = lowest-known p.pending hash h in
      let found : lookup hash p.by_hash ≡ some e.transaction =
        (s.pending_known price hash e at).2 in
      let r = remove_tx-IsRemoved hash e.transaction p found in
      record {
        sound = remove_tx-IsSound host hash p s;
        room =
            rw r.config
              (omega (arith, remove_tx-size host hash e.transaction p s found, s.size_bound));
        config = r.config;
        fewer = λ k none_before.
            rw r.by_hash (ground (arith, lookup-remove k hash p.by_hash, none_before));
      }

  make_room-lem :
      (p : TransactionPool)
      → IsSound host p
      → (make_room p ≡ (err pool_full, p))
        ⊎ (q : TransactionPool) × (make_room p ≡ (ok tt, q)) × HasRoom host p q
  unfolding make_room try_evict_lowest_gas
  make_room-lem p s = elim (Bool-cases (leb p.config.max_size (length p.by_hash))) [
    | inl full ↦ elim (Option-cases (lowest p.pending)) [
      | inl empty ↦ inl (rw (full, empty, try_evict_lowest_gas) refl)
      | inr (hash, h) ↦
          inr ((remove_tx hash p).1, rw (full, h, try_evict_lowest_gas) refl, evicted hash p s h)
    ]
    | inr free ↦ inr (
      p,
      rw free refl,
      record { sound = s; room = ground (arith, free); config = refl; fewer = λ k h. h },
    )
  ]

  pub add_cases :
      (now : ℕ) (tx : Transaction) (current_nonce : ℕ) (p : TransactionPool)
      → let q = (add host now tx current_nonce p).1 in
        let room = make_room p in
        (q ≡ p)
        ⊎ (lookup (transaction_hash host tx) p.by_hash ≡ none)
          × ((q ≡ room.1)
              ⊎ (room.0 ≡ ok tt)
                × (or_zero (lookup tx.from room.1.by_sender) < room.1.config.max_per_account)
                × ((q ≡ track host tx (place host tx now pending room.1))
                    ⊎ (q ≡ track host tx (place host tx now queued room.1))))
  unfolding add contains
  add_cases now tx current_nonce p = ground arith

  tracked_after_room :
      (now : ℕ) (tx : Transaction) (status : TxStatus) (p q : TransactionPool)
      → lookup (transaction_hash host tx) p.by_hash ≡ none
      → or_zero (lookup tx.from q.by_sender) < q.config.max_per_account
      → HasRoom host p q
      → IsSound host (track host tx (place host tx now status q))
  tracked_after_room now tx status p q absent few h =
      added-IsSound host tx q (track host tx (place host tx now status q))
        (track-IsTracked host now tx status q) (h.fewer (transaction_hash host tx) absent) h.room
        (ground (arith, h.sound.counted tx.from, few)) h.sound

  -- Every `add` keeps the invariant, whether it succeeds or fails.
  pub add-IsSound :
      (now : ℕ) (tx : Transaction) (current_nonce : ℕ) (p : TransactionPool)
      → IsSound host p
      → IsSound host (add host now tx current_nonce p).1
  add-IsSound now tx current_nonce p s = elim (add_cases now tx current_nonce p) [
    | inl same ↦ rw same s
    | inr (absent, later) ↦ elim (make_room-lem p s) [
      | inl full ↦ elim later [
        | inl stopped ↦ rw (stopped, full) s
        | inr (made, few, status) ↦ absurd (ground (arith, full, made))
      ]
      | inr (q, made, h) ↦ elim later [
        | inl stopped ↦ rw (stopped, made) h.sound
        | inr (made', few, status) ↦
            let few' : or_zero (lookup tx.from q.by_sender) < q.config.max_per_account =
              subst
                (λ (r : Result BlockchainError Unit × TransactionPool).
                  or_zero (lookup tx.from r.1.by_sender) < r.1.config.max_per_account)
                made few in
            elim status [
              | inl e ↦ rw (e, made) (tracked_after_room now tx pending p q absent few' h)
              | inr e ↦ rw (e, made) (tracked_after_room now tx queued p q absent few' h)
            ]
      ]
    ]
  ]
