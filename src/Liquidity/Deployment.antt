-- ===== src/Liquidity/Deployment.antt =====
-- crates/liquidity/src/deployment.rs: the stake of a validator spread over the pools by a strategy.
-- The pools are met in the order of the list.
pub mod Moves
pub mod Totals
mod Tests
use kainotes.Prelude.{
  ℕ, ◌+◌, ◌-◌, Bool, true, false, not, ◌&&◌, Option, none, some, List, [], ◌∷◌, ◌++◌, map, ltb,
  ◌==◌, if◌then◌else◌, sum_of, u64_mod,
}
use kainotes.Prelude.Result.{Result, ok, err, panic, ok_or, unwrap_or, fail_if}
use kainotes.Prelude.Result.Exec.{Exec, pure, lift, gets, modify, reject_if, ◌>>=◌, ◌>>◌}
use kainotes.Prelude.Float.{F64, of_nat, add, sub, mul, div, less, to_word}
use kainotes.Prelude.Float.Ops.{fmin, fmax, fabs, ratio}
use kainotes.Dict.{Dict, lookup, insert, contains}
use kainotes.Core.Types.{Address, Amount, is_zero, checked_add, first_digit, first_digit_or}
use kainotes.Liquidity.Error.{
  LiquidityError, pool_error, pool_not_found, invalid_allocation, calculation_error,
}
use kainotes.Liquidity.Pool.{
  PoolType, amm, lending, treasury, stability_reserve, LiquidityPool, risk_adjusted_return,
  get_balance, deposit, request_withdrawal, process_withdrawals,
}
use kainotes.Liquidity.Risk.{RiskCalculator, new_calculator}

pub record DeploymentAllocation : Type 0 where
  pub pool_type : PoolType
  pub percentage : F64
  pub min_amount : Option Amount
  pub max_amount : Option Amount

pub data DeploymentStrategy : Type 0 where
  conservative balanced aggressive : DeploymentStrategy
  custom : List DeploymentAllocation → DeploymentStrategy

-- An allocation without bounds.
abbrev share : PoolType → ℕ → DeploymentAllocation
share t percentage = record {
  pool_type = t;
  percentage = of_nat percentage;
  min_amount = none;
  max_amount = none;
}

unfoldable pub default_allocations : DeploymentStrategy → List DeploymentAllocation
default_allocations conservative =
    share treasury 40 ∷ share stability_reserve 35 ∷ share lending 20 ∷ share amm 5 ∷ []
default_allocations balanced =
    share lending 35 ∷ share amm 30 ∷ share stability_reserve 20 ∷ share treasury 15 ∷ []
default_allocations aggressive = share amm 50 ∷ share lending 40 ∷ share stability_reserve 10 ∷ []
default_allocations (custom allocations) = allocations

abbrev sum_percentage : F64 → List DeploymentAllocation → F64
sum_percentage acc [] = acc
sum_percentage acc (a ∷ rest) = sum_percentage (add acc a.percentage) rest

-- `DeploymentStrategy::validate`
unfoldable pub validate_strategy : DeploymentStrategy → Result LiquidityError Unit
unfolding default_allocations
validate_strategy s =
    let total = sum_percentage (of_nat 0) (default_allocations s) in
    fail_if (less (ratio 1 10) (fabs (sub total (of_nat 100)))) invalid_allocation

pub record DeploymentManager : Type 0 where
  pub pools : Dict LiquidityPool
  pub strategies : Dict DeploymentStrategy
  pub risk_calculator : RiskCalculator
  pub min_deployment_per_pool : Amount

pub record PoolDeployment : Type 0 where
  pub pool_id : ℕ
  pub pool_type : PoolType
  pub amount : Amount

pub record FailedDeployment : Type 0 where
  pub pool_type : PoolType
  pub amount : Amount
  pub error : LiquidityError

pub record DeploymentReport : Type 0 where
  pub validator : Address
  pub total_deployed : Amount
  pub deployments : List PoolDeployment
  pub failed_deployments : List FailedDeployment

pub record RebalanceReport : Type 0 where
  pub validator : Address
  pub withdrawn : List PoolDeployment
  pub redeployed : List PoolDeployment

abbrev pub DeployExec : Type 0 → Type 0
DeployExec = Exec LiquidityError DeploymentManager

-- `DeploymentManager::new`
unfoldable pub new_manager : Amount → DeploymentManager
new_manager min_deployment_per_pool = record {
  pools = [];
  strategies = [];
  risk_calculator = new_calculator;
  min_deployment_per_pool = min_deployment_per_pool;
}

unfoldable pub register_pool : LiquidityPool → DeployExec Unit
unfolding contains
register_pool pool = do
  exists ← gets λ (d : DeploymentManager). contains pool.info.id d.pools
  reject_if exists pool_error
  modify λ (d : DeploymentManager). record d { pools = insert pool.info.id pool d.pools }

unfoldable pub get_pool : ℕ → DeploymentManager → Result LiquidityError LiquidityPool
get_pool pool_id d = ok_or (lookup pool_id d.pools) (pool_not_found pool_id)

-- A call of a pool through `get_pool_mut`.
abbrev pub on_found :
    {A : Type 0} → ℕ → Exec LiquidityError LiquidityPool A → Option LiquidityPool → DeployExec A
on_found pool_id m none d = (err (pool_not_found pool_id), d)
on_found pool_id m (some pool) d =
    let (r, q) = m pool in (r, record d { pools = insert pool_id q d.pools })

abbrev pub on_pool : {A : Type 0} → ℕ → Exec LiquidityError LiquidityPool A → DeployExec A
on_pool pool_id m d = on_found pool_id m (lookup pool_id d.pools) d

unfoldable pub set_strategy : Address → DeploymentStrategy → DeployExec Unit
unfolding validate_strategy
set_strategy validator strategy = do
  lift (validate_strategy strategy)
  modify λ (d : DeploymentManager). record d { strategies = insert validator strategy d.strategies }

unfoldable pub get_strategy : Address → DeploymentManager → DeploymentStrategy
get_strategy validator d = unwrap_or balanced (lookup validator d.strategies)

-- An amount that must be at least, or at most, another.
abbrev raised : Option Amount → F64 → F64
raised none x = x
raised (some a) x = fmax x (of_nat (first_digit a))

abbrev lowered : Option Amount → F64 → F64
lowered none x = x
lowered (some a) x = fmin x (of_nat (first_digit_or (u64_mod - 1) a))

unfoldable pub calculate_allocation_amount : Amount → DeploymentAllocation → Amount
calculate_allocation_amount total a =
    let share = div (mul (of_nat (first_digit total)) a.percentage) (of_nat 100) in
    to_word u64_mod (lowered a.max_amount (raised a.min_amount share))

abbrev same_type : PoolType → PoolType → Bool
same_type amm amm = true
same_type lending lending = true
same_type treasury treasury = true
same_type stability_reserve stability_reserve = true
same_type _ _ = false

-- The loop over the pools, with the best one so far.
abbrev better : ℕ × F64 → Option (ℕ × F64) → ℕ × F64
better x none = x
better x (some b) = if less b.1 x.1 then x else b

unfoldable pub search_best : PoolType → Option (ℕ × F64) → Dict LiquidityPool → Option (ℕ × F64)
unfolding risk_adjusted_return
search_best t best [] = best
search_best t best ((id, pool) ∷ pools) =
    let taken =
      (if same_type pool.info.pool_type t && pool.info.active
        then some (better (id, risk_adjusted_return pool.info) best)
        else best) in
    search_best t taken pools

abbrev first_of : Option (ℕ × F64) → Option ℕ
first_of none = none
first_of (some b) = some b.0

unfoldable pub find_best_pool : PoolType → DeploymentManager → Result LiquidityError ℕ
unfolding search_best
find_best_pool t d = ok_or (first_of (search_best t none d.pools)) pool_error

unfoldable pub deploy_to_pool : ℕ → Address → ℕ → Amount → DeployExec Unit
deploy_to_pool now validator pool_id amount = on_pool pool_id (deposit now validator amount)

-- What the report says of one deployment, by its outcome.
unfoldable pub note_outcome :
    ℕ
    → PoolType
    → Amount
    → DeploymentReport
    → Result LiquidityError Unit
    → Result LiquidityError DeploymentReport
note_outcome pool_id t amount r (ok done) = ok (record r {
  deployments =
      r.deployments ++ (record { pool_id = pool_id; pool_type = t; amount = amount } ∷ []);
  total_deployed = r.total_deployed + amount;
})
note_outcome pool_id t amount r (err e) = ok (record r {
  failed_deployments =
      r.failed_deployments ++ (record { pool_type = t; amount = amount; error = e } ∷ []);
})
note_outcome pool_id t amount r panic = panic

-- One turn of the loop over the allocations, past the test of the least amount.
unfoldable pub deploy_amount :
    ℕ → Address → PoolType → Amount → DeploymentReport → DeployExec DeploymentReport
unfolding deploy_to_pool note_outcome
deploy_amount now validator t amount r = do
  best ← gets (find_best_pool t)
  pool_id ← lift best
  outcome ← λ (d : DeploymentManager).
      let (o, e) = deploy_to_pool now validator pool_id amount d in (ok o, e)
  lift (note_outcome pool_id t amount r outcome)

unfoldable pub deploy_one :
    ℕ → Address → Amount → DeploymentAllocation → DeploymentReport → DeployExec DeploymentReport
unfolding calculate_allocation_amount deploy_amount
deploy_one now validator total a r d =
    let amount = calculate_allocation_amount total a in
    if ltb amount d.min_deployment_per_pool
    then (ok r, d)
    else deploy_amount now validator a.pool_type amount r d

unfoldable pub deploy_all :
    ℕ
    → Address
    → Amount
    → List DeploymentAllocation
    → DeploymentReport
    → DeployExec DeploymentReport
unfolding deploy_one
deploy_all now validator total [] r = pure r
deploy_all now validator total (a ∷ rest) r =
    deploy_one now validator total a r >>= deploy_all now validator total rest

abbrev pub empty_report : Address → DeploymentReport
empty_report validator = record {
  validator = validator;
  total_deployed = 0;
  deployments = [];
  failed_deployments = [];
}

unfoldable pub deploy_liquidity : ℕ → Address → Amount → DeployExec DeploymentReport
unfolding deploy_all get_strategy default_allocations
deploy_liquidity now validator total_amount d =
    deploy_all now validator total_amount (default_allocations (get_strategy validator d))
      (empty_report validator) d

abbrev deployments_in : Address → Dict LiquidityPool → List PoolDeployment
deployments_in validator [] = []
deployments_in validator ((id, pool) ∷ pools) =
    let balance = get_balance validator pool in
    let rest = deployments_in validator pools in
    if not (is_zero balance)
    then record { pool_id = id; pool_type = pool.info.pool_type; amount = balance } ∷ rest
    else rest

unfoldable pub get_validator_deployments : Address → DeploymentManager → List PoolDeployment
get_validator_deployments validator d = deployments_in validator d.pools

abbrev pub deployed : PoolDeployment → Amount
deployed p = p.amount

unfoldable pub get_total_deployed : Address → DeploymentManager → Amount
unfolding get_validator_deployments
get_total_deployed validator d = sum_of deployed (get_validator_deployments validator d)
