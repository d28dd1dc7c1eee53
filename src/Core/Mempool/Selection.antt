-- ===== src/Core/Mempool/Selection.antt =====
-- `get_pending` of crates/blockchain-core/src/mempool.rs.
use kainotes.Prelude.{
  ℕ, ◌+◌, ◌%◌, ◌≤◌, ◌<◌, ◌≡◌, All, All-append, All-weaken, List, [], ◌∷◌, ◌++◌, arith, length,
  sum_of, ltb, leb, Bool-cases, inl, inr, u64_mod,
}
use kainotes.Dict.{Dict, values}
use kainotes.Core.Transaction.{Transaction}
use kainotes.Core.Host.{Host}
use kainotes.Core.Mempool.{
  PoolConfig, PoolEntry, TransactionPool, take_fitting, highest_first, get_pending,
}
use kainotes.Core.Mempool.Runs.{Reached}
use kainotes.Core.Mempool.Prices.{IsAt, IsLevel, IsPriced, Reached-IsPriced}

-- The gas limits of a selection added up.
abbrev pub gas_of : List Transaction → ℕ
gas_of txs = sum_of (λ (tx : Transaction). tx.gas_limit) txs

-- The gas limit of the entry cannot make the sum of the loop wrap around.
abbrev pub IsModest : ℕ → PoolEntry → Type 0
IsModest max_gas e = max_gas + e.transaction.gas_limit < u64_mod

take_fitting-gas :
    (max_gas max_count total taken : ℕ) (es : List PoolEntry)
    → All (IsModest max_gas) es
    → total ≤ max_gas
    → total + gas_of (take_fitting max_gas max_count total taken es) ≤ max_gas
unfolding take_fitting
take_fitting-gas max_gas max_count total taken [] h l = omega arith
take_fitting-gas max_gas max_count total taken (e ∷ es) h l =
    let next = (total + e.transaction.gas_limit) % u64_mod in
    let exact : next ≡ total + e.transaction.gas_limit = omega (arith, h.0) in
    ground (
      arith,
      exact,
      take_fitting-gas max_gas max_count total taken es h.1 l,
      take_fitting-gas max_gas max_count next (taken + 1) es h.1,
    )

take_fitting-count :
    (max_gas max_count total taken : ℕ) (es : List PoolEntry)
    → taken ≤ max_count
    → taken + length (take_fitting max_gas max_count total taken es) ≤ max_count
unfolding take_fitting
take_fitting-count max_gas max_count total taken [] l = omega arith
take_fitting-count max_gas max_count total taken (e ∷ es) l =
    let next = (total + e.transaction.gas_limit) % u64_mod in
    ground (
      arith,
      take_fitting-count max_gas max_count total taken es l,
      take_fitting-count max_gas max_count next (taken + 1) es,
    )

-- Where no gas limit among the pending transactions can make the 64-bit sum wrap around, the
-- selection for a block has at most the given count, and its gas limits add up to at most the given
-- gas.
pub get_pending_fits :
    (max_gas max_count : ℕ) (p : TransactionPool)
    → All (IsModest max_gas) (highest_first p.pending)
    → (gas_of (get_pending max_gas max_count p) ≤ max_gas)
      × (length (get_pending max_gas max_count p) ≤ max_count)
unfolding get_pending
get_pending_fits max_gas max_count p h =
    let es = highest_first p.pending in
    (
      omega (arith, take_fitting-gas max_gas max_count 0 0 es h (omega arith)),
      omega (arith, take_fitting-count max_gas max_count 0 0 es (omega arith)),
    )

-- No transaction pays a higher gas price than one before it.
abbrev pub IsDescending : List Transaction → Type 0
IsDescending [] = Unit
IsDescending (tx ∷ txs) =
    All (λ (t : Transaction). t.gas_price ≤ tx.gas_price) txs × IsDescending txs

abbrev IsDescendingBy : List PoolEntry → Type 0
IsDescendingBy [] = Unit
IsDescendingBy (e ∷ es) =
    All (λ (f : PoolEntry). f.transaction.gas_price ≤ e.transaction.gas_price) es
    × IsDescendingBy es

take_fitting-All :
    (P : Transaction → Type 0) (max_gas max_count total taken : ℕ) (es : List PoolEntry)
    → All (λ (e : PoolEntry). P e.transaction) es
    → All P (take_fitting max_gas max_count total taken es)
unfolding take_fitting
take_fitting-All P max_gas max_count total taken [] h = tt
take_fitting-All P max_gas max_count total taken (e ∷ es) h =
    elim (Bool-cases (ltb max_gas ((total + e.transaction.gas_limit) % u64_mod))) [
      | inl over ↦ rw (over, take_fitting) (take_fitting-All P max_gas max_count total taken es h.1)
      | inr fits ↦ elim (Bool-cases (leb max_count taken)) [
        | inl full ↦ rw (fits, full, take_fitting) tt
        | inr free ↦
            rw (fits, free, take_fitting)
              (
                h.0,
                take_fitting-All P max_gas max_count ((total + e.transaction.gas_limit) % u64_mod)
                    (taken + 1) es h.1,
              )
      ]
    ]

take_fitting-IsDescending :
    (max_gas max_count total taken : ℕ) (es : List PoolEntry)
    → IsDescendingBy es
    → IsDescending (take_fitting max_gas max_count total taken es)
unfolding take_fitting
take_fitting-IsDescending max_gas max_count total taken [] h = tt
take_fitting-IsDescending max_gas max_count total taken (e ∷ es) h =
    elim (Bool-cases (ltb max_gas ((total + e.transaction.gas_limit) % u64_mod))) [
      | inl over ↦
          rw (over, take_fitting) (take_fitting-IsDescending max_gas max_count total taken es h.1)
      | inr fits ↦ elim (Bool-cases (leb max_count taken)) [
        | inl full ↦ rw (fits, full, take_fitting) tt
        | inr free ↦
            rw (fits, free, take_fitting)
              (
                take_fitting-All (λ t. t.gas_price ≤ e.transaction.gas_price) max_gas max_count
                    ((total + e.transaction.gas_limit) % u64_mod) (taken + 1) es h.0,
                take_fitting-IsDescending max_gas max_count
                    ((total + e.transaction.gas_limit) % u64_mod) (taken + 1) es h.1,
              )
      ]
    ]

IsDescendingBy-append :
    (price : ℕ) (xs ys : List PoolEntry)
    → IsDescendingBy xs
    → IsDescendingBy ys
    → All (λ (e : PoolEntry). price ≤ e.transaction.gas_price) xs
    → All (λ (e : PoolEntry). e.transaction.gas_price ≤ price) ys
    → IsDescendingBy (xs ++ ys)
IsDescendingBy-append price [] ys hx hy above below = hy
IsDescendingBy-append price (x ∷ xs) ys hx hy above below = (
  All-append (λ (f : PoolEntry). f.transaction.gas_price ≤ x.transaction.gas_price) xs ys hx.0
      (All-weaken _ _ ys (λ e h. omega (arith, h, above.0)) below),
  IsDescendingBy-append price xs ys hx.1 hy above.1 below,
)

-- A level has one price, so it descends.
level-All :
    (price : ℕ) (m : Dict PoolEntry)
    → All (IsAt price) m
    → All (λ (e : PoolEntry). e.transaction.gas_price ≡ price) (values m)
level-All price [] h = tt
level-All price (f ∷ m) h = (h.0, level-All price m h.1)

same-IsDescendingBy :
    (price : ℕ) (es : List PoolEntry)
    → All (λ (e : PoolEntry). e.transaction.gas_price ≡ price) es
    → IsDescendingBy es
same-IsDescendingBy price [] h = tt
same-IsDescendingBy price (e ∷ es) h =
    (All-weaken _ _ es (λ f same. omega (arith, same, h.0)) h.1, same-IsDescendingBy price es h.1)

highest_first-above :
    (price : ℕ) (d : Dict (Dict PoolEntry))
    → All (λ (f : ℕ × Dict PoolEntry). price < f.0) d
    → All IsLevel d
    → All (λ (e : PoolEntry). price ≤ e.transaction.gas_price) (highest_first d)
highest_first-above price [] h l = tt
highest_first-above price ((k, m) ∷ d) h l =
    All-append (λ (e : PoolEntry). price ≤ e.transaction.gas_price) (highest_first d) (values m)
      (highest_first-above price d h.1 l.1)
      (All-weaken _ _ (values m) (λ e same. omega (arith, same, h.0)) (level-All k m l.0))

highest_first-IsDescendingBy :
    (d : Dict (Dict PoolEntry)) → IsPriced d → IsDescendingBy (highest_first d)
highest_first-IsDescendingBy [] h = tt
highest_first-IsDescendingBy ((price, m) ∷ d) (ascending, levels) =
    IsDescendingBy-append price (highest_first d) (values m)
      (highest_first-IsDescendingBy d (ascending.1, levels.1))
      (same-IsDescendingBy price (values m) (level-All price m levels.0))
      (highest_first-above price d ascending.0 levels.1)
      (All-weaken _ _ (values m) (λ e same. omega (arith, same)) (level-All price m levels.0))

-- From every pool that the public operations lead to from a new one, the selection for a block is in
-- descending order of the gas price.
pub get_pending_descends :
    (host : Host) (config : PoolConfig) (max_gas max_count : ℕ) (p : TransactionPool)
    → Reached host config p
    → IsDescending (get_pending max_gas max_count p)
unfolding get_pending
get_pending_descends host config max_gas max_count p r =
    take_fitting-IsDescending max_gas max_count 0 0 (highest_first p.pending)
      (highest_first-IsDescendingBy p.pending (Reached-IsPriced host config p r))
