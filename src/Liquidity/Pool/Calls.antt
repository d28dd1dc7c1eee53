-- ===== src/Liquidity/Pool/Calls.antt =====
-- Histories of calls of the pool of crates/liquidity/src/pool.rs, and what its payments take from
-- each depositor.
use kainotes.Prelude.{
  ℕ, ◌+◌, ◌-◌, ◌≡◌, refl, List, [], ◌∷◌, ◌++◌, arith, ◌==◌, if◌then◌else◌, sum_of,
}
use kainotes.Prelude.Result.{unwrap_or}
use kainotes.Dict.{lookup, insert, contains}
use kainotes.Dict.Laws.{lookup-insert, lookup-insert_self}
use kainotes.Dict.Sums.{total}
use kainotes.Core.Types.{Address, Amount}
use kainotes.Liquidity.Pool.{
  PoolInfo, LiquidityPool, new_pool, new_metrics, deposit, request_withdrawal, process_withdrawals,
  calculate_yield, update_apy, update_risk_score, activate, deactivate, get_balance, ready, settle,
  settle_all, pay, note_deposit, update_avg_deposit,
}
use kainotes.Liquidity.Pool.Balance.{
  IsSound, amount_of, new_pool-IsSound, deposit-IsSound, process_withdrawals-IsSound,
}

-- The calls of the pool; the first number of a deposit and of a request is the clock's reading.
pub data PoolCall : Type 0 where
  deposits : ℕ → Address → Amount → PoolCall
  requests : ℕ → Address → Amount → ℕ → PoolCall
  processes yields sets_apy sets_risk : ℕ → PoolCall
  activates deactivates : PoolCall

abbrev pub call : PoolCall → LiquidityPool → LiquidityPool
call (deposits now validator amount) p = (deposit now validator amount p).1
call (requests now validator amount unlock_time) p =
    (request_withdrawal now validator amount unlock_time p).1
call (processes current_time) p = (process_withdrawals current_time p).1
call (yields elapsed) p = (calculate_yield elapsed p).1
call (sets_apy apy) p = update_apy apy p
call (sets_risk score) p = update_risk_score score p
call activates p = activate p
call deactivates p = deactivate p

abbrev pub calls : List PoolCall → LiquidityPool → LiquidityPool
calls [] p = p
calls (c ∷ cs) p = calls cs (call c p)

request_withdrawal-deposits :
    (now : ℕ) (validator : Address) (amount : Amount) (unlock_time : ℕ) (p : LiquidityPool)
    → let q = (request_withdrawal now validator amount unlock_time p).1 in
      (q.deposits ≡ p.deposits) × (q.info ≡ p.info) × (q.metrics ≡ p.metrics)
unfolding request_withdrawal get_balance
request_withdrawal-deposits now validator amount unlock_time p = ground arith

call-IsSound : (c : PoolCall) (p : LiquidityPool) → IsSound p → IsSound (call c p)
unfolding calculate_yield update_apy update_risk_score activate deactivate
call-IsSound (deposits now validator amount) p s = deposit-IsSound now validator amount p s
call-IsSound (requests now validator amount unlock_time) p s =
    let e = request_withdrawal-deposits now validator amount unlock_time p in
    record {
      distinct = rw e.0 s.distinct;
      locked = rw (e.0, e.1) s.locked;
      flows = rw (e.1, e.2) s.flows;
    }
call-IsSound (processes current_time) p s = process_withdrawals-IsSound current_time p s
call-IsSound (yields elapsed) p s = record {
  distinct = s.distinct;
  locked = s.locked;
  flows = s.flows;
}
call-IsSound (sets_apy apy) p s = record {
  distinct = s.distinct;
  locked = s.locked;
  flows = s.flows;
}
call-IsSound (sets_risk score) p s = record {
  distinct = s.distinct;
  locked = s.locked;
  flows = s.flows;
}
call-IsSound activates p s = record { distinct = s.distinct; locked = s.locked; flows = s.flows }
call-IsSound deactivates p s = record { distinct = s.distinct; locked = s.locked; flows = s.flows }

calls-IsSound : (cs : List PoolCall) (p : LiquidityPool) → IsSound p → IsSound (calls cs p)
calls-IsSound [] p s = s
calls-IsSound (c ∷ cs) p s = calls-IsSound cs (call c p) (call-IsSound c p s)

-- After any calls of a new pool without value locked, the value locked is what the deposits add up
-- to, and all that was deposited is the value locked and all that was withdrawn.
pub pool_balances :
    (now : ℕ) (info : PoolInfo) (cs : List PoolCall)
    → info.tvl ≡ 0
    → let p = calls cs (new_pool now info) in
      (p.info.tvl ≡ total amount_of p.deposits)
      × (p.metrics.total_deposits ≡ p.metrics.total_withdrawals + p.info.tvl)
pool_balances now info cs h =
    let s = calls-IsSound cs (new_pool now info) (new_pool-IsSound now info h) in
    (s.locked, s.flows)

-- What a list of payments gives to one validator.
abbrev pub paid_to : Address → List (Address × Amount) → Amount
paid_to k ws = sum_of (λ (w : Address × Amount). if w.0 == k then w.1 else 0) ws

settle-pays :
    (k validator : Address) (amount : Amount) (p : LiquidityPool)
    → let (paid, q) = settle (validator, amount) p in
      get_balance k p ≡ get_balance k q + paid_to k paid
unfolding settle pay get_balance
settle-pays k validator amount p = ground (
  arith,
  lookup-insert k validator (unwrap_or 0 (lookup validator p.deposits) - amount) p.deposits,
)

sum_of-paid :
    (k : Address) (xs ys : List (Address × Amount))
    → paid_to k (xs ++ ys) ≡ paid_to k xs + paid_to k ys
sum_of-paid k [] ys = omega arith
sum_of-paid k (x ∷ xs) ys = omega (arith, sum_of-paid k xs ys)

settle_all-pays :
    (k : Address) (ws : List (Address × Amount)) (p : LiquidityPool)
    → let (paid, q) = settle_all ws p in get_balance k p ≡ get_balance k q + paid_to k paid
unfolding settle_all
settle_all-pays k [] p = omega arith
settle_all-pays k ((validator, amount) ∷ ws) p =
    let q = (settle (validator, amount) p).1 in
    omega (
      arith,
      settle-pays k validator amount p,
      settle_all-pays k ws q,
      sum_of-paid k (settle (validator, amount) p).0 (settle_all ws q).0,
    )

-- Processing the withdrawals takes from the balance of each validator exactly what it reports as
-- paid to that validator.
process_pays :
    (current_time : ℕ) (k : Address) (p : LiquidityPool)
    → let (completed, q) = process_withdrawals current_time p in
      get_balance k p ≡ get_balance k q + paid_to k completed
unfolding process_withdrawals get_balance
process_pays current_time k p = ground (arith, settle_all-pays k (ready current_time p) p)

-- The metrics that a deposit would set for its depositor.
record IsUncounted (p : LiquidityPool) : Type 0 where
  pub count : p.metrics.depositor_count ≡ 0
  pub average : p.metrics.avg_deposit ≡ 0

deposit-IsUncounted :
    (now : ℕ) (validator : Address) (amount : Amount) (p : LiquidityPool)
    → IsUncounted p
    → IsUncounted (deposit now validator amount p).1
unfolding deposit get_balance note_deposit update_avg_deposit contains
deposit-IsUncounted now validator amount p s = record {
  count = ground (
    arith,
    s.count,
    lookup-insert_self validator (unwrap_or 0 (lookup validator p.deposits)) p.deposits,
    lookup-insert_self validator (unwrap_or 0 (lookup validator p.deposits) + amount)
        (insert validator (unwrap_or 0 (lookup validator p.deposits)) p.deposits),
  );
  average = ground (
    arith,
    s.count,
    s.average,
    lookup-insert_self validator (unwrap_or 0 (lookup validator p.deposits)) p.deposits,
    lookup-insert_self validator (unwrap_or 0 (lookup validator p.deposits) + amount)
        (insert validator (unwrap_or 0 (lookup validator p.deposits)) p.deposits),
  );
}

settle_all-metrics :
    (ws : List (Address × Amount)) (p : LiquidityPool)
    → let q = (settle_all ws p).1 in
      (q.metrics.depositor_count ≡ p.metrics.depositor_count)
      × (q.metrics.avg_deposit ≡ p.metrics.avg_deposit)
unfolding settle_all settle pay
settle_all-metrics [] p = (refl, refl)
settle_all-metrics (w ∷ ws) p = ground (arith, settle_all-metrics ws (settle w p).1)

call-IsUncounted : (c : PoolCall) (p : LiquidityPool) → IsUncounted p → IsUncounted (call c p)
unfolding calculate_yield update_apy update_risk_score activate deactivate process_withdrawals
call-IsUncounted (deposits now validator amount) p s = deposit-IsUncounted now validator amount p s
call-IsUncounted (requests now validator amount unlock_time) p s =
    let e = request_withdrawal-deposits now validator amount unlock_time p in
    record { count = rw e.2 s.count; average = rw e.2 s.average }
call-IsUncounted (processes current_time) p s = record {
  count = ground (arith, s.count, settle_all-metrics (ready current_time p) p);
  average = ground (arith, s.average, settle_all-metrics (ready current_time p) p);
}
call-IsUncounted (yields elapsed) p s = record { count = s.count; average = s.average }
call-IsUncounted (sets_apy apy) p s = record { count = s.count; average = s.average }
call-IsUncounted (sets_risk score) p s = record { count = s.count; average = s.average }
call-IsUncounted activates p s = record { count = s.count; average = s.average }
call-IsUncounted deactivates p s = record { count = s.count; average = s.average }

calls-IsUncounted :
    (cs : List PoolCall) (p : LiquidityPool) → IsUncounted p → IsUncounted (calls cs p)
calls-IsUncounted [] p s = s
calls-IsUncounted (c ∷ cs) p s = calls-IsUncounted cs (call c p) (call-IsUncounted c p s)

-- No call of a new pool ever counts a depositor, so the average deposit stays zero.
depositors_uncounted :
    (now : ℕ) (info : PoolInfo) (cs : List PoolCall)
    → let p = calls cs (new_pool now info) in
      (p.metrics.depositor_count ≡ 0) × (p.metrics.avg_deposit ≡ 0)
unfolding new_pool new_metrics
depositors_uncounted now info cs =
    let s = calls-IsUncounted cs (new_pool now info) (record { count = refl; average = refl }) in
    (s.count, s.average)
