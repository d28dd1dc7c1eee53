-- ===== src/Liquidity/Deployment/Moves.antt =====
-- The withdrawals and the rebalancing of crates/liquidity/src/deployment.rs.
use kainotes.Prelude.{ℕ, ◌-◌, List, [], ◌∷◌, ◌++◌, sum_of, u64_mod}
use kainotes.Prelude.Result.Exec.{pure, gets, ◌>>=◌, ◌>>◌}
use kainotes.Dict.{Dict}
use kainotes.Core.Types.{Address, Amount}
use kainotes.Liquidity.Pool.{LiquidityPool, request_withdrawal, process_withdrawals}
use kainotes.Liquidity.Deployment.{
  DeployExec, DeploymentManager, PoolDeployment, RebalanceReport, deploy_liquidity, deployed,
  get_validator_deployments, on_pool,
}

-- `DeploymentManager::withdraw_liquidity`
unfoldable pub withdraw_from : ℕ → ℕ → Address → Amount → ℕ → DeployExec Unit
withdraw_from now pool_id validator amount unlock_time =
    on_pool pool_id (request_withdrawal now validator amount unlock_time)

-- The loop that asks for all withdrawals, at the end of time.
unfoldable pub withdraw_all : ℕ → Address → List PoolDeployment → DeployExec Unit
unfolding withdraw_from
withdraw_all now validator [] = pure tt
withdraw_all now validator (p ∷ ps) =
    withdraw_from now p.pool_id validator p.amount (u64_mod - 1) >> withdraw_all now validator ps

unfoldable pub rebalance : ℕ → Address → DeployExec RebalanceReport
unfolding withdraw_all deploy_liquidity get_validator_deployments
rebalance now validator = do
  current ← gets (get_validator_deployments validator)
  withdraw_all now validator current
  report ← deploy_liquidity now validator (sum_of deployed current)
  pure (record { validator = validator; withdrawn = current; redeployed = report.deployments })

abbrev tag : ℕ → List (Address × Amount) → List (ℕ × Address × Amount)
tag id [] = []
tag id (w ∷ ws) = (id, w.0, w.1) ∷ tag id ws

abbrev process_in : ℕ → Dict LiquidityPool → List (ℕ × Address × Amount) × Dict LiquidityPool
process_in current_time [] = ([], [])
process_in current_time ((id, pool) ∷ pools) =
    let (completed, q) = process_withdrawals current_time pool in
    let (rest, qs) = process_in current_time pools in (tag id completed ++ rest, (id, q) ∷ qs)

unfoldable pub process_pending_withdrawals :
    ℕ → DeploymentManager → List (ℕ × Address × Amount) × DeploymentManager
process_pending_withdrawals current_time d =
    let (completed, pools) = process_in current_time d.pools in
    (completed, record d { pools = pools })
