-- ===== src/Liquidity/Pool/Balance.antt =====
-- How the operations of crates/liquidity/src/pool.rs move the value locked, the deposits and the
-- totals together.
use kainotes.Prelude.{ℕ, ◌+◌, ◌-◌, ◌≡◌, List, [], ◌∷◌, arith, ◌⊎◌, inl, inr}
use kainotes.Prelude.Result.{unwrap_or}
use kainotes.Dict.{Dict, lookup, insert, contains, IsDistinct}
use kainotes.Dict.Laws.{insert-IsDistinct, lookup-insert_self}
use kainotes.Dict.Sums.{total, total-insert, le-total}
use kainotes.Core.Types.{Address, Amount}
use kainotes.Liquidity.Pool.{
  PoolInfo, LiquidityPool, deposit, get_balance, update_avg_deposit, note_deposit, pay, settle,
  ready, settle_all, process_withdrawals, new_pool, new_metrics,
}

abbrev pub amount_of : Amount → ℕ
amount_of a = a

-- The value locked is what the deposits add up to, and what came in is what is locked and what left.
pub record IsSound (p : LiquidityPool) : Type 0 where
  pub distinct : IsDistinct p.deposits
  pub locked : p.info.tvl ≡ total amount_of p.deposits
  pub flows : p.metrics.total_deposits ≡ p.metrics.total_withdrawals + p.info.tvl

pub new_pool-IsSound : (now : ℕ) (info : PoolInfo) → info.tvl ≡ 0 → IsSound (new_pool now info)
unfolding new_pool new_metrics
new_pool-IsSound now info h = record { distinct = tt; locked = h; flows = ground (arith, h) }

total-reinsert :
    (v : Address) (amount : Amount) (d : Dict Amount)
    → let e = insert v (unwrap_or 0 (lookup v d)) d in
      total amount_of (insert v (unwrap_or 0 (lookup v d) + amount) e) ≡ total amount_of d + amount
total-reinsert v amount d = ground (
  arith,
  total-insert amount_of v (unwrap_or 0 (lookup v d)) d,
  total-insert amount_of v (unwrap_or 0 (lookup v d) + amount)
      (insert v (unwrap_or 0 (lookup v d)) d),
  lookup-insert_self v (unwrap_or 0 (lookup v d)) d,
)

-- The outcome of a deposit that is accepted, and of one that is not.
pub deposit_sums :
    (now : ℕ) (validator : Address) (amount : Amount) (p : LiquidityPool)
    → let q = (deposit now validator amount p).1 in
      (q ≡ p)
      ⊎ ((q.deposits
            ≡ insert validator
                (unwrap_or 0 (lookup validator p.deposits) + amount)
                (insert validator (unwrap_or 0 (lookup validator p.deposits)) p.deposits))
          × (q.info.tvl ≡ p.info.tvl + amount)
          × (q.metrics.total_deposits ≡ p.metrics.total_deposits + amount)
          × (q.metrics.total_withdrawals ≡ p.metrics.total_withdrawals))
unfolding deposit get_balance note_deposit update_avg_deposit contains
deposit_sums now validator amount p =
    ground
      (arith, lookup-insert_self validator (unwrap_or 0 (lookup validator p.deposits)) p.deposits)

pub deposit-IsSound :
    (now : ℕ) (validator : Address) (amount : Amount) (p : LiquidityPool)
    → IsSound p
    → IsSound (deposit now validator amount p).1
deposit-IsSound now validator amount p s = elim (deposit_sums now validator amount p) [
  | inl same ↦ rw same s
  | inr (d, t, i, o) ↦ record {
    distinct = rw d (insert-IsDistinct _ _ _ (insert-IsDistinct _ _ _ s.distinct));
    locked = rw d (ground (arith, s.locked, t, total-reinsert validator amount p.deposits));
    flows = ground (arith, s.flows, t, i, o);
  }
]

settle-IsSound :
    (validator : Address) (amount : Amount) (p : LiquidityPool)
    → IsSound p
    → IsSound (settle (validator, amount) p).1
unfolding settle pay
settle-IsSound validator amount p s = record {
  distinct = ground (
    arith,
    s.distinct,
    insert-IsDistinct validator (unwrap_or 0 (lookup validator p.deposits) - amount) p.deposits
        s.distinct,
  );
  locked = ground (
    arith,
    s.locked,
    le-total amount_of validator p.deposits,
    total-insert amount_of validator (unwrap_or 0 (lookup validator p.deposits) - amount)
        p.deposits,
  );
  flows = ground (arith, s.locked, s.flows, le-total amount_of validator p.deposits);
}

settle_all-IsSound :
    (ws : List (Address × Amount)) (p : LiquidityPool) → IsSound p → IsSound (settle_all ws p).1
unfolding settle_all
settle_all-IsSound [] p s = s
settle_all-IsSound ((validator, amount) ∷ ws) p s =
    settle_all-IsSound ws (settle (validator, amount) p).1 (settle-IsSound validator amount p s)

pub process_withdrawals-IsSound :
    (current_time : ℕ) (p : LiquidityPool)
    → IsSound p
    → IsSound (process_withdrawals current_time p).1
unfolding process_withdrawals
process_withdrawals-IsSound current_time p s =
    let h = settle_all-IsSound (ready current_time p) p s in
    record {
      distinct = ground (arith, h.distinct);
      locked = ground (arith, h.locked);
      flows = ground (arith, h.flows);
    }
