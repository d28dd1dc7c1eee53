-- ===== src/Liquidity/Deployment/Tests.antt =====
-- Runs of the deployment of crates/liquidity/src/deployment.rs, and the theorems on it at them.
use kainotes.Prelude.{ℕ, ◌+◌, ◌≡◌, refl, sum_of, none, [], ◌∷◌}
use kainotes.Prelude.Result.{ok}
use kainotes.Prelude.Float.{of_nat, mul, div, to_word}
use kainotes.Dict.{lookup, insert, contains}
use kainotes.Liquidity.Pool.{
  PoolType, amm, lending, LiquidityPool, new_info, new_pool, new_metrics, deposit, get_balance,
  note_deposit, update_avg_deposit, request_withdrawal, risk_adjusted_return,
}
use kainotes.Liquidity.Risk.{new_calculator}
use kainotes.Liquidity.Deployment.{
  DeploymentManager, DeploymentAllocation, DeploymentReport, RebalanceReport, PoolDeployment,
  custom, deploy_liquidity, get_total_deployed, deployed, deploy_all, deploy_one, deploy_amount,
  calculate_allocation_amount, find_best_pool, search_best, deploy_to_pool, note_outcome,
  get_strategy, default_allocations, get_validator_deployments,
}
use kainotes.Liquidity.Deployment.Moves.{rebalance, withdraw_all, withdraw_from}
use kainotes.Liquidity.Deployment.Totals.{deploy_accounts, rebalance_adds}

abbrev part : PoolType → ℕ → DeploymentAllocation
part t percentage = record {
  pool_type = t;
  percentage = of_nat percentage;
  min_amount = none;
  max_amount = none;
}

abbrev pool_of : ℕ → PoolType → LiquidityPool
pool_of id t = new_pool 100 (new_info 100 id t [] 7 500 3000)

abbrev manager : DeploymentManager
manager = record {
  pools = (1, pool_of 1 lending) ∷ (2, pool_of 2 amm) ∷ [];
  strategies = (5, custom (part lending 60 ∷ part amm 40 ∷ [])) ∷ [];
  risk_calculator = new_calculator;
  min_deployment_per_pool = 10;
}

abbrev deployed_to : ℕ → PoolType → ℕ → PoolDeployment
deployed_to id t amount = record { pool_id = id; pool_type = t; amount = amount }

abbrev report : DeploymentReport
report = record {
  validator = 5;
  total_deployed = 1000;
  deployments = deployed_to 1 lending 600 ∷ deployed_to 2 amm 400 ∷ [];
  failed_deployments = [];
}

abbrev filled : DeploymentManager
filled = (deploy_liquidity 101 5 1000 manager).1

deployment_returns : deploy_liquidity 101 5 1000 manager ≡ (ok report, filled)
unfolding deploy_liquidity deploy_all deploy_one deploy_amount calculate_allocation_amount
    find_best_pool search_best deploy_to_pool note_outcome get_strategy default_allocations deposit
    get_balance note_deposit update_avg_deposit risk_adjusted_return new_info new_pool new_metrics
    lookup insert contains of_nat mul div to_word
deployment_returns = refl

deploy_accounts_example :
    (get_total_deployed 5 filled ≡ get_total_deployed 5 manager + report.total_deployed)
    × (report.total_deployed ≡ sum_of deployed report.deployments)
deploy_accounts_example = deploy_accounts 101 5 1000 manager filled report deployment_returns

abbrev moved : RebalanceReport
moved = record {
  validator = 5;
  withdrawn = deployed_to 1 lending 600 ∷ deployed_to 2 amm 400 ∷ [];
  redeployed = deployed_to 1 lending 600 ∷ deployed_to 2 amm 400 ∷ [];
}

abbrev rebalanced : DeploymentManager
rebalanced = (rebalance 102 5 filled).1

rebalance_returns : rebalance 102 5 filled ≡ (ok moved, rebalanced)
unfolding rebalance withdraw_all withdraw_from request_withdrawal get_validator_deployments
    deploy_liquidity deploy_all deploy_one deploy_amount calculate_allocation_amount find_best_pool
    search_best deploy_to_pool note_outcome get_strategy default_allocations deposit get_balance
    note_deposit update_avg_deposit risk_adjusted_return new_info new_pool new_metrics lookup insert
    contains of_nat mul div to_word
rebalance_returns = refl

rebalance_adds_example :
    get_total_deployed 5 rebalanced ≡ get_total_deployed 5 filled + sum_of deployed moved.redeployed
rebalance_adds_example = rebalance_adds 102 5 filled rebalanced moved rebalance_returns

-- The validator has twice what it deployed.
twice_as_much : get_total_deployed 5 rebalanced ≡ 2000
unfolding get_total_deployed rebalance withdraw_all withdraw_from request_withdrawal
    get_validator_deployments deploy_liquidity deploy_all deploy_one deploy_amount
    calculate_allocation_amount find_best_pool search_best deploy_to_pool note_outcome get_strategy
    default_allocations deposit get_balance note_deposit update_avg_deposit risk_adjusted_return
    new_info new_pool new_metrics lookup insert contains of_nat mul div to_word
twice_as_much = refl
