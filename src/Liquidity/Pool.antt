-- ===== src/Liquidity/Pool.antt =====
-- crates/liquidity/src/pool.rs: the pool that the other pools are built on. The clock's reading is
-- an argument of the methods that take one.
pub mod Balance
pub mod Calls
mod Tests
use kainotes.Prelude.{
  ℕ, zero, suc, ◌+◌, ◌*◌, ◌/◌, ◌%◌, Bool, true, false, not, Option, none, some, List, [], ◌∷◌, ◌++◌,
  map, ltb, leb, ◌==◌, if◌then◌else◌, min, filter_by, u64_mod,
}
use kainotes.Prelude.Result.{Result, ok, err, panic, ok_or, unwrap_or}
use kainotes.Prelude.Result.Exec.{Exec, lift, gets, modify, reject_if, ◌>>=◌, ◌>>◌}
use kainotes.Prelude.Float.{F64, of_nat, mul, div, to_word}
use kainotes.Prelude.Float.Ops.{ratio}
use kainotes.Dict.{Dict, lookup, insert, remove, contains}
use kainotes.Core.Types.{Address, Amount, Bytes, is_zero, checked_add, checked_sub, first_digit}
use kainotes.Liquidity.Error.{
  LiquidityError, pool_error, deployment_error, calculation_error, insufficient_liquidity,
}

pub data PoolType : Type 0 where
  amm lending treasury stability_reserve : PoolType

-- A 16-bit rate or score is in hundredths of a percent.
pub record PoolInfo : Type 0 where
  pub id : ℕ
  pub pool_type : PoolType
  pub name : Bytes
  pub tvl : Amount
  pub created_at : ℕ
  pub owner : Address
  pub active : Bool
  pub apy : ℕ
  pub risk_score : ℕ

pub record PoolMetrics : Type 0 where
  pub total_deposits : Amount
  pub total_withdrawals : Amount
  pub total_yield : Amount
  pub depositor_count : ℕ
  pub avg_deposit : Amount
  pub utilization_rate : F64
  pub updated_at : ℕ

pub record PendingWithdrawal : Type 0 where
  pub validator : Address
  pub amount : Amount
  pub request_time : ℕ
  pub unlock_time : ℕ

pub record LiquidityPool : Type 0 where
  pub info : PoolInfo
  pub metrics : PoolMetrics
  pub deposits : Dict Amount
  pub pending_withdrawals : Dict PendingWithdrawal

abbrev pub PoolExec : Type 0 → Type 0
PoolExec = Exec LiquidityError LiquidityPool

-- `PoolInfo::new`
unfoldable pub new_info : ℕ → ℕ → PoolType → Bytes → Address → ℕ → ℕ → PoolInfo
new_info now id pool_type name owner apy risk_score = record {
  id = id;
  pool_type = pool_type;
  name = name;
  tvl = 0;
  created_at = now;
  owner = owner;
  active = true;
  apy = apy;
  risk_score = risk_score;
}

-- `PoolInfo::calculate_yield`
unfoldable pub expected_yield : Amount → PoolInfo → Amount
expected_yield amount p =
    to_word u64_mod (div (mul (of_nat (first_digit amount)) (of_nat p.apy)) (of_nat 10000))

unfoldable pub risk_adjusted_return : PoolInfo → F64
risk_adjusted_return p =
    if p.risk_score == 0
    then of_nat p.apy
    else div (of_nat p.apy) (div (of_nat p.risk_score) (of_nat 100))

-- `PoolMetrics::new`
unfoldable pub new_metrics : ℕ → PoolMetrics
new_metrics now = record {
  total_deposits = 0;
  total_withdrawals = 0;
  total_yield = 0;
  depositor_count = 0;
  avg_deposit = 0;
  utilization_rate = of_nat 0;
  updated_at = now;
}

unfoldable pub update_avg_deposit : PoolMetrics → PoolMetrics
update_avg_deposit m =
    if ltb 0 m.depositor_count
    then record m { avg_deposit = first_digit m.total_deposits / m.depositor_count }
    else m

-- `LiquidityPool::new`
unfoldable pub new_pool : ℕ → PoolInfo → LiquidityPool
unfolding new_metrics
new_pool now info = record {
  info = info;
  metrics = new_metrics now;
  deposits = [];
  pending_withdrawals = [];
}

-- `entry(validator).or_insert_with(Amount::zero)`
abbrev open_deposit : Address → LiquidityPool → LiquidityPool
open_deposit validator p = record p {
  deposits = insert validator (unwrap_or 0 (lookup validator p.deposits)) p.deposits;
}

abbrev set_deposit : Address → Amount → LiquidityPool → LiquidityPool
set_deposit validator balance p = record p { deposits = insert validator balance p.deposits }

abbrev set_tvl : Amount → LiquidityPool → LiquidityPool
set_tvl tvl p = record p { info = record p.info { tvl = tvl } }

abbrev set_metrics : PoolMetrics → LiquidityPool → LiquidityPool
set_metrics m p = record p { metrics = m }

-- The end of a deposit: the count of depositors, the average and the time.
unfoldable pub note_deposit : ℕ → Address → LiquidityPool → LiquidityPool
unfolding contains update_avg_deposit
note_deposit now validator p =
    let m =
      (if not (contains validator p.deposits)
        then record p.metrics { depositor_count = p.metrics.depositor_count + 1 }
        else p.metrics) in
    set_metrics (record (update_avg_deposit m) { updated_at = now }) p

unfoldable pub get_balance : Address → LiquidityPool → Amount
get_balance validator p = unwrap_or 0 (lookup validator p.deposits)

unfoldable pub deposit : ℕ → Address → Amount → PoolExec Unit
unfolding get_balance note_deposit
deposit now validator amount = do
  active ← gets λ (p : LiquidityPool). p.info.active
  reject_if (not active) pool_error
  reject_if (is_zero amount) deployment_error
  modify (open_deposit validator)
  current ← gets (get_balance validator)
  balance ← lift (ok_or (checked_add current amount) calculation_error)
  modify (set_deposit validator balance)
  old_tvl ← gets λ (p : LiquidityPool). p.info.tvl
  tvl ← lift (ok_or (checked_add old_tvl amount) calculation_error)
  modify (set_tvl tvl)
  old_total ← gets λ (p : LiquidityPool). p.metrics.total_deposits
  total ← lift (ok_or (checked_add old_total amount) calculation_error)
  modify λ (p : LiquidityPool). set_metrics (record p.metrics { total_deposits = total }) p
  modify (note_deposit now validator)

unfoldable pub request_withdrawal : ℕ → Address → Amount → ℕ → PoolExec Unit
unfolding get_balance
request_withdrawal now validator amount unlock_time = do
  balance ← gets (get_balance validator)
  reject_if (ltb balance amount) (insufficient_liquidity amount balance)
  modify λ (p : LiquidityPool). record p {
    pending_withdrawals =
        insert validator
          (record {
            validator = validator;
            amount = amount;
            request_time = now;
            unlock_time = unlock_time;
          })
          p.pending_withdrawals;
  }

-- The withdrawals that are due.
unfoldable pub ready : ℕ → LiquidityPool → List (Address × Amount)
ready current_time p =
    map (λ (e : ℕ × PendingWithdrawal). (e.0, e.1.amount))
      (filter_by (λ (e : ℕ × PendingWithdrawal). leb e.1.unlock_time current_time)
        p.pending_withdrawals)

-- A due withdrawal paid out of the deposit: the balance, the value locked and the metrics.
unfoldable pub pay : Address → Amount → Amount → LiquidityPool → LiquidityPool
pay validator amount balance p = record p {
  info = record p.info { tvl = unwrap_or p.info.tvl (checked_sub p.info.tvl amount) };
  metrics = record p.metrics {
    total_withdrawals =
        unwrap_or p.metrics.total_withdrawals (checked_add p.metrics.total_withdrawals amount);
  };
  deposits = insert validator balance p.deposits;
  pending_withdrawals = remove validator p.pending_withdrawals;
}

-- One turn of the loop over the withdrawals that are due.
unfoldable pub settle : Address × Amount → LiquidityPool → List (Address × Amount) × LiquidityPool
unfolding pay
settle (validator, amount) p = elim (lookup validator p.deposits) [
  | none ↦ ([], p)
  | some balance ↦ elim (checked_sub balance amount) [
    | none ↦ ([], p)
    | some new_balance ↦ ((validator, amount) ∷ [], pay validator amount new_balance p)
  ]
]

unfoldable pub settle_all :
    List (Address × Amount) → LiquidityPool → List (Address × Amount) × LiquidityPool
unfolding settle
settle_all [] p = ([], p)
settle_all (w ∷ ws) p =
    let (paid, q) = settle w p in let (rest, r) = settle_all ws q in (paid ++ rest, r)

is_empty {ℓ} : {A : Type ℓ} → List A → Bool
is_empty [] = true
is_empty (x ∷ xs) = false

unfoldable pub process_withdrawals : ℕ → LiquidityPool → List (Address × Amount) × LiquidityPool
unfolding ready settle_all is_empty
process_withdrawals current_time p =
    let (completed, q) = settle_all (ready current_time p) p in
    (
      completed,
      if not (is_empty completed)
          then set_metrics (record q.metrics { updated_at = current_time }) q
          else q,
    )

-- `LiquidityPool::calculate_yield`
unfoldable pub yield_over : ℕ → LiquidityPool → Amount
yield_over elapsed_seconds p =
    let apy_rate = div (of_nat p.info.apy) (of_nat 10000) in
    let time_fraction = ratio elapsed_seconds (365 * 24 * 3600) in
    to_word u64_mod (mul (mul (of_nat (first_digit p.info.tvl)) apy_rate) time_fraction)

unfoldable pub calculate_yield : ℕ → LiquidityPool → Amount × LiquidityPool
unfolding yield_over
calculate_yield elapsed_seconds p =
    let amount = yield_over elapsed_seconds p in
    let total = unwrap_or p.metrics.total_yield (checked_add p.metrics.total_yield amount) in
    (amount, set_metrics (record p.metrics { total_yield = total }) p)

unfoldable pub update_apy : ℕ → LiquidityPool → LiquidityPool
update_apy new_apy p = record p { info = record p.info { apy = new_apy } }

unfoldable pub update_risk_score : ℕ → LiquidityPool → LiquidityPool
update_risk_score new_score p = record p {
  info = record p.info { risk_score = min new_score 10000 };
}

unfoldable pub deactivate : LiquidityPool → LiquidityPool
deactivate p = record p { info = record p.info { active = false } }

unfoldable pub activate : LiquidityPool → LiquidityPool
activate p = record p { info = record p.info { active = true } }
