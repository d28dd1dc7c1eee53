-- ===== src/Core/Mempool/Prices.antt =====
-- The order of the gas prices in `pending`, under each operation of the pool.
use kainotes.Prelude.{
  ℕ, ◌≡◌, refl, All, [], ◌∷◌, arith, Option-cases, Bool-cases, leb, length, inl, inr,
}
use kainotes.Dict.{Dict, lookup, insert, remove}
use kainotes.Dict.Sorted.{IsAscending}
use kainotes.Dict.Ordered.{insert_ordered, insert_ordered-IsAscending, remove-IsAscending}
use kainotes.Dict.Every.{All-insert, All-insert_ordered, All-remove, All-lookup}
use kainotes.Core.Types.{Address, Hash}
use kainotes.Core.Transaction.{Transaction}
use kainotes.Core.Host.{Host}
use kainotes.Core.Block.{transaction_hash}
use kainotes.Core.Mempool
use kainotes.Core.Mempool.{
  PoolConfig, PoolEntry, TransactionPool, TxStatus, pending, queued, rejected, or_new, remove_tx,
  remove_from_pending, remove_from_queued, add, put_pending, put_back, promote_one, promote_all,
  promote_queued, remove_txs, remove_included, remove_hashes, prune, clear, to_promote, outdated,
  place, track, make_room, try_evict_lowest_gas, lowest,
}
use kainotes.Core.Mempool.Growth.{add_cases}
use kainotes.Core.Mempool.Runs.{Reached, reached-keeps}

-- An entry of the price.
abbrev pub IsAt : ℕ → ℕ × PoolEntry → Type 0
IsAt price f = f.1.transaction.gas_price ≡ price

-- The entries of one price.
abbrev pub IsLevel : ℕ × Dict PoolEntry → Type 0
IsLevel f = All (IsAt f.0) f.1

-- The prices ascend, and each entry stands under its own.
abbrev pub IsPriced : Dict (Dict PoolEntry) → Type 0
IsPriced d = IsAscending d × All IsLevel d

level :
    (price : ℕ) (d : Dict (Dict PoolEntry))
    → All IsLevel d
    → All (IsAt price) (or_new (lookup price d))
level price d a = elim (Option-cases (lookup price d)) [
  | inl absent ↦ rw absent tt
  | inr (m, found) ↦ rw found (All-lookup IsLevel price m d a found)
]

put_pending-IsPriced :
    (price : ℕ) (hash : Hash) (e : PoolEntry) (d : Dict (Dict PoolEntry))
    → e.transaction.gas_price ≡ price
    → IsPriced d
    → IsPriced (put_pending price hash e d)
unfolding put_pending
put_pending-IsPriced price hash e d h (ascending, levels) =
    let m = insert hash e (or_new (lookup price d)) in
    (
      insert_ordered-IsAscending price m d ascending,
      All-insert_ordered IsLevel price m d
          (All-insert (IsAt price) hash e (or_new (lookup price d)) h (level price d levels))
          levels,
    )

put_back-IsPriced :
    (price : ℕ) (m : Dict PoolEntry) (d : Dict (Dict PoolEntry))
    → All (IsAt price) m
    → IsPriced d
    → IsPriced (put_back insert_ordered price m d)
put_back-IsPriced price [] d h (ascending, levels) =
    (remove-IsAscending price d ascending, All-remove IsLevel price d levels)
put_back-IsPriced price (e ∷ es) d h (ascending, levels) = (
  insert_ordered-IsAscending price (e ∷ es) d ascending,
  All-insert_ordered IsLevel price (e ∷ es) d h levels,
)

remove_from_pending-IsPriced :
    (hash : Hash) (price : ℕ) (p : TransactionPool)
    → IsPriced p.pending
    → IsPriced (remove_from_pending hash price p).pending
unfolding remove_from_pending
remove_from_pending-IsPriced hash price p s = elim (Option-cases (lookup price p.pending)) [
  | inl absent ↦ rw (absent, remove_from_pending) s
  | inr (m, found) ↦
      rw (found, remove_from_pending)
        (put_back-IsPriced price (remove hash m) p.pending
          (All-remove (IsAt price) hash m (All-lookup IsLevel price m p.pending s.1 found)) s)
]

remove_from_queued-pending :
    (sender : Address) (nonce : ℕ) (p : TransactionPool)
    → (remove_from_queued sender nonce p).pending ≡ p.pending
unfolding remove_from_queued
remove_from_queued-pending sender nonce p = ground arith

remove_tx-IsPriced :
    (hash : Hash) (p : TransactionPool) → IsPriced p.pending → IsPriced (remove_tx hash p).1.pending
unfolding remove_tx
remove_tx-IsPriced hash p s = elim (Option-cases (lookup hash p.by_hash)) [
  | inl absent ↦ rw (absent, remove_tx) s
  | inr (tx, found) ↦
      rw (found, remove_tx, remove_from_queued-pending)
        (remove_from_pending-IsPriced hash tx.gas_price
          (record p {
            by_hash = remove hash p.by_hash;
            by_sender = Mempool.lower_sender tx.from p.by_sender;
          })
          s)
]

make_room-IsPriced : (p : TransactionPool) → IsPriced p.pending → IsPriced (make_room p).1.pending
unfolding make_room try_evict_lowest_gas
make_room-IsPriced p s = elim (Bool-cases (leb p.config.max_size (length p.by_hash))) [
  | inl full ↦ elim (Option-cases (lowest p.pending)) [
    | inl empty ↦ rw (full, try_evict_lowest_gas, empty) s
    | inr (hash, h) ↦ rw (full, try_evict_lowest_gas, h) (remove_tx-IsPriced hash p s)
  ]
  | inr free ↦ rw free s
]

module _ (host : Host) where
  promote_one-IsPriced :
      (at : Address × ℕ) (p : TransactionPool)
      → IsPriced p.pending
      → IsPriced (promote_one host at p).pending
  unfolding promote_one
  promote_one-IsPriced (sender, nonce) p s = elim (Option-cases (lookup sender p.queued)) [
    | inl absent ↦ rw (absent, promote_one) s
    | inr (m, found) ↦ elim (Option-cases (lookup nonce m)) [
      | inl absent ↦ rw (found, absent, promote_one) s
      | inr (e, at) ↦
          rw (found, at, promote_one)
            (put_pending-IsPriced e.transaction.gas_price (transaction_hash host e.transaction)
              (record e { status = pending }) p.pending refl s)
    ]
  ]

  place-IsPriced :
      (now : ℕ) (tx : Transaction) (status : TxStatus) (p : TransactionPool)
      → IsPriced p.pending
      → IsPriced (track host tx (place host tx now status p)).pending
  unfolding track place
  place-IsPriced now tx pending p s =
      put_pending-IsPriced tx.gas_price (transaction_hash host tx)
        (Mempool.entry_of host tx now pending) p.pending refl s
  place-IsPriced now tx queued p s = s
  place-IsPriced now tx rejected p s = s

  add-IsPriced :
      (now : ℕ) (tx : Transaction) (current_nonce : ℕ) (p : TransactionPool)
      → IsPriced p.pending
      → IsPriced (add host now tx current_nonce p).1.pending
  add-IsPriced now tx current_nonce p s = elim (add_cases host now tx current_nonce p) [
    | inl same ↦ rw same s
    | inr (absent, inl stopped) ↦ rw stopped (make_room-IsPriced p s)
    | inr (absent, inr (made, few, inl e)) ↦
        rw e (place-IsPriced now tx pending (make_room p).1 (make_room-IsPriced p s))
    | inr (absent, inr (made, few, inr e)) ↦
        rw e (place-IsPriced now tx queued (make_room p).1 (make_room-IsPriced p s))
  ]

  pub Reached-IsPriced :
      (config : PoolConfig) (p : TransactionPool) → Reached host config p → IsPriced p.pending
  unfolding clear Mempool.new
  Reached-IsPriced config p r =
      reached-keeps host (λ q. IsPriced q.pending) add-IsPriced remove_tx-IsPriced
        promote_one-IsPriced (λ q s. (tt, tt)) config p (tt, tt) r
