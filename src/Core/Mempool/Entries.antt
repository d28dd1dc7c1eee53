-- ===== src/Core/Mempool/Entries.antt =====
-- The two-level maps of the pool: what each update leaves at a pair of keys.
use kainotes.Prelude.{
  ℕ, ◌-◌, ◌≡◌, ◌&&◌, Option, none, some, [], ◌∷◌, arith, ◌==◌, if◌then◌else◌, Option-cases, inl,
  inr,
}
use kainotes.Dict.{Dict, lookup, insert, remove}
use kainotes.Dict.Laws.{lookup-insert, lookup-remove}
use kainotes.Dict.Ordered.{insert_ordered, lookup-insert_ordered}
use kainotes.Core.Types.{Address, Hash}
use kainotes.Core.Mempool.{
  PoolEntry, TransactionPool, or_new, or_zero, put_pending, put_queued, put_back,
  remove_from_pending, remove_from_queued, lower_sender,
}

-- The entry at an outer and an inner key.
abbrev pub entry_at : ℕ → ℕ → Dict (Dict PoolEntry) → Option PoolEntry
entry_at i j d = lookup j (or_new (lookup i d))

pub entry_at-put_pending :
    (i j price : ℕ) (hash : Hash) (e : PoolEntry) (d : Dict (Dict PoolEntry))
    → entry_at i j (put_pending price hash e d)
      ≡ (if price == i && hash == j then some e else entry_at i j d)
unfolding put_pending
entry_at-put_pending i j price hash e d = ground (
  arith,
  lookup-insert_ordered i price (insert hash e (or_new (lookup price d))) d,
  lookup-insert j hash e (or_new (lookup price d)),
)

pub entry_at-put_queued :
    (i j : ℕ) (sender : Address) (nonce : ℕ) (e : PoolEntry) (d : Dict (Dict PoolEntry))
    → entry_at i j (put_queued sender nonce e d)
      ≡ (if sender == i && nonce == j then some e else entry_at i j d)
unfolding put_queued
entry_at-put_queued i j sender nonce e d = ground (
  arith,
  lookup-insert i sender (insert_ordered nonce e (or_new (lookup sender d))) d,
  lookup-insert_ordered j nonce e (or_new (lookup sender d)),
)

-- A store that puts the inner map under its key.
abbrev Stores : (ℕ → Dict PoolEntry → Dict (Dict PoolEntry) → Dict (Dict PoolEntry)) → Type 0
Stores store =
    (i k : ℕ) (m : Dict PoolEntry) (d : Dict (Dict PoolEntry))
    → lookup i (store k m d) ≡ (if k == i then some m else lookup i d)

or_new-put_back :
    (store : ℕ → Dict PoolEntry → Dict (Dict PoolEntry) → Dict (Dict PoolEntry))
    → Stores store
    → (i k : ℕ) (m : Dict PoolEntry) (d : Dict (Dict PoolEntry))
    → or_new (lookup i (put_back store k m d)) ≡ (if k == i then m else or_new (lookup i d))
or_new-put_back store h i k [] d = ground (arith, lookup-remove i k d)
or_new-put_back store h i k (e ∷ es) d = ground (arith, h i k (e ∷ es) d)

entry_at-put_back :
    (store : ℕ → Dict PoolEntry → Dict (Dict PoolEntry) → Dict (Dict PoolEntry))
    → Stores store
    → (i j k l : ℕ) (m : Dict PoolEntry) (d : Dict (Dict PoolEntry)) → lookup k d ≡ some m
    → entry_at i j (put_back store k (remove l m) d)
      ≡ (if k == i && l == j then none else entry_at i j d)
entry_at-put_back store h i j k l m d e =
    rw (or_new-put_back store h i k (remove l m) d) (ground (arith, e, lookup-remove j l m))

pub entry_at-remove_from_pending :
    (i j : ℕ) (hash : Hash) (price : ℕ) (p : TransactionPool)
    → entry_at i j (remove_from_pending hash price p).pending
      ≡ (if price == i && hash == j then none else entry_at i j p.pending)
unfolding remove_from_pending lookup
entry_at-remove_from_pending i j hash price p = elim (Option-cases (lookup price p.pending)) [
  | inl absent ↦ ground (arith, absent)
  | inr (m, found) ↦
      rw (found, remove_from_pending)
        (entry_at-put_back insert_ordered (λ i k m d. lookup-insert_ordered i k m d) i j price hash
          m p.pending found)
]

pub entry_at-remove_from_queued :
    (i j : ℕ) (sender : Address) (nonce : ℕ) (p : TransactionPool)
    → entry_at i j (remove_from_queued sender nonce p).queued
      ≡ (if sender == i && nonce == j then none else entry_at i j p.queued)
unfolding remove_from_queued lookup
entry_at-remove_from_queued i j sender nonce p = elim (Option-cases (lookup sender p.queued)) [
  | inl absent ↦ ground (arith, absent)
  | inr (m, found) ↦
      rw (found, remove_from_queued)
        (entry_at-put_back insert (λ i k m d. lookup-insert i k m d) i j sender nonce m p.queued
          found)
]

pub lookup-lower_sender :
    (s sender : Address) (d : Dict ℕ)
    → or_zero (lookup s (lower_sender sender d))
      ≡ (if sender == s then or_zero (lookup s d) - 1 else or_zero (lookup s d))
unfolding lower_sender lookup
lookup-lower_sender s sender d = elim (Option-cases (lookup sender d)) [
  | inl absent ↦ ground (arith, absent)
  | inr (n, found) ↦
      ground (arith, found, lookup-remove s sender d, lookup-insert s sender (n - 1) d)
]
