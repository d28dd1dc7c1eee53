-- ===== src/Liquidity/Deployment/Totals.antt =====
-- What a validator has in all the pools of crates/liquidity/src/deployment.rs, under a deployment and
-- a rebalancing.
use kainotes.Prelude.{
  ℕ, ◌+◌, ◌-◌, ◌≡◌, refl, sym, ap, ◌∙◌, if◌then◌else◌, Bool, true, false, List, [], ◌∷◌, arith, ltb,
  sum_of, sum_of-append, Option-cases, inl, inr, u64_mod,
}
use kainotes.Prelude.Result.{Result, ok, err, panic, unwrap_or}
use kainotes.Prelude.Result.Exec.{bind-eq-ok, pure, lift, ◌>>=◌}
use kainotes.Dict.{Dict, lookup, insert, contains}
use kainotes.Dict.Laws.{lookup-insert_self}
use kainotes.Dict.Sums.{total, total-insert, measured}
use kainotes.Core.Types.{Address, Amount}
use kainotes.Liquidity.Error.{LiquidityError}
use kainotes.Liquidity.Pool.{
  PoolType, LiquidityPool, get_balance, deposit, request_withdrawal, note_deposit,
  update_avg_deposit,
}
use kainotes.Liquidity.Deployment.{
  DeploymentManager, DeploymentAllocation, DeploymentReport, PoolDeployment, RebalanceReport,
  deploy_to_pool, note_outcome, deploy_amount, deploy_one, deploy_all, deploy_liquidity,
  find_best_pool, get_validator_deployments, get_total_deployed, deployments_in, deployed,
  empty_report, calculate_allocation_amount,
}
use kainotes.Liquidity.Deployment.Moves.{withdraw_all, withdraw_from, rebalance}

-- The sum of the validator's balances.
abbrev held : Address → DeploymentManager → Amount
held validator d = total (get_balance validator) d.pools

sum_of-deployments_in :
    (validator : Address) (pools : Dict LiquidityPool)
    → sum_of deployed (deployments_in validator pools) ≡ total (get_balance validator) pools
sum_of-deployments_in validator [] = refl
sum_of-deployments_in validator ((id, pool) ∷ pools) =
    ground (arith, sum_of-deployments_in validator pools)

get_total_deployed_lem :
    (validator : Address) (d : DeploymentManager)
    → get_total_deployed validator d ≡ held validator d
unfolding get_total_deployed get_validator_deployments
get_total_deployed_lem validator d = sum_of-deployments_in validator d.pools

-- The amount of a call that returned.
abbrev paid_in : Amount → Result LiquidityError Unit → Amount
paid_in amount (ok done) = amount
paid_in amount (err e) = 0
paid_in amount panic = 0

deposit-pays :
    (now : ℕ) (validator : Address) (amount : Amount) (p : LiquidityPool)
    → let (r, q) = deposit now validator amount p in
      get_balance validator q ≡ get_balance validator p + paid_in amount r
unfolding deposit get_balance note_deposit update_avg_deposit contains
deposit-pays now validator amount p = ground (
  arith,
  lookup-insert_self validator (unwrap_or 0 (lookup validator p.deposits)) p.deposits,
  lookup-insert_self validator (unwrap_or 0 (lookup validator p.deposits) + amount)
      (insert validator (unwrap_or 0 (lookup validator p.deposits)) p.deposits),
)

request_withdrawal-keeps :
    (now : ℕ) (validator : Address) (amount : Amount) (unlock : ℕ) (p : LiquidityPool)
    → get_balance validator (request_withdrawal now validator amount unlock p).1
      ≡ get_balance validator p
unfolding request_withdrawal get_balance
request_withdrawal-keeps now validator amount unlock p = ground arith

deploy_to_pool-pays :
    (now : ℕ) (validator : Address) (pool_id : ℕ) (amount : Amount) (d : DeploymentManager)
    → let (r, e) = deploy_to_pool now validator pool_id amount d in
      held validator e ≡ held validator d + paid_in amount r
unfolding deploy_to_pool
deploy_to_pool-pays now validator pool_id amount d = elim (Option-cases (lookup pool_id d.pools)) [
  | inl missing ↦ rw (missing, deploy_to_pool) (omega arith)
  | inr (pool, found) ↦
      rw (found, deploy_to_pool)
        (omega (
          arith,
          deposit-pays now validator amount pool,
          total-insert (get_balance validator) pool_id (deposit now validator amount pool).1
              d.pools,
          ap (measured (get_balance validator)) found,
        ))
]

withdraw_from-keeps :
    (now pool_id : ℕ) (validator : Address) (amount : Amount) (unlock : ℕ) (d : DeploymentManager)
    → held validator (withdraw_from now pool_id validator amount unlock d).1 ≡ held validator d
unfolding withdraw_from
withdraw_from-keeps now pool_id validator amount unlock d =
    elim (Option-cases (lookup pool_id d.pools)) [
      | inl missing ↦ rw (missing, withdraw_from) refl
      | inr (pool, found) ↦
          rw (found, withdraw_from)
            (omega (
              arith,
              request_withdrawal-keeps now validator amount unlock pool,
              total-insert (get_balance validator) pool_id
                  (request_withdrawal now validator amount unlock pool).1 d.pools,
              ap (measured (get_balance validator)) found,
            ))
    ]

-- How far the report and the balances went on together.
record GoesOn (validator : Address) (d : DeploymentManager) (r : DeploymentReport)
    (e : DeploymentManager) (s : DeploymentReport) : Type 0 where
  pub balances : held validator e + r.total_deployed ≡ held validator d + s.total_deployed
  pub listed :
      sum_of deployed s.deployments + r.total_deployed
      ≡ sum_of deployed r.deployments + s.total_deployed

note_outcome_lem :
    (pool_id : ℕ) (t : PoolType) (amount : Amount) (r s : DeploymentReport)
    (o : Result LiquidityError Unit)
    → note_outcome pool_id t amount r o ≡ ok s
    → (s.total_deployed ≡ r.total_deployed + paid_in amount o)
      × (sum_of deployed s.deployments ≡ sum_of deployed r.deployments + paid_in amount o)
unfolding note_outcome
note_outcome_lem pool_id t amount r s (ok done) h = ground (
  arith,
  h,
  sum_of-append deployed r.deployments
      ((record { pool_id = pool_id; pool_type = t; amount = amount }) ∷ []),
)
note_outcome_lem pool_id t amount r s (err e) h = ground (arith, h)
note_outcome_lem pool_id t amount r s panic h = ground (arith, h)

deploy_amount-GoesOn :
    (now : ℕ) (validator : Address) (t : PoolType) (amount : Amount) (d e : DeploymentManager)
    (r s : DeploymentReport)
    → deploy_amount now validator t amount r d ≡ (ok s, e)
    → GoesOn validator d r e s
unfolding deploy_amount
deploy_amount-GoesOn now validator t amount d e r s h = split (find_best_pool t d) h
  where
    split :
        (best : Result LiquidityError ℕ)
        → (lift best >>= λ pool_id.
              (λ (d : DeploymentManager).
                let (o, e) = deploy_to_pool now validator pool_id amount d in (ok o, e))
              >>= λ outcome. lift (note_outcome pool_id t amount r outcome))
            d
          ≡ (ok s, e)
        → GoesOn validator d r e s
    split (ok pool_id) g =
        let (o, f) = deploy_to_pool now validator pool_id amount d in
        let m = deploy_to_pool-pays now validator pool_id amount d in
        let n = note_outcome_lem pool_id t amount r s o (ap (λ x. x.0) g) in
        let z = ap (λ x. held validator x.1) g in
        record { balances = omega (arith, m, n, z); listed = omega (arith, n) }
    split (err x) g = cc
    split panic g = cc

deploy_one-GoesOn :
    (now : ℕ) (validator : Address) (amount : Amount) (a : DeploymentAllocation)
    (d e : DeploymentManager) (r s : DeploymentReport)
    → deploy_one now validator amount a r d ≡ (ok s, e)
    → GoesOn validator d r e s
unfolding deploy_one
deploy_one-GoesOn now validator total a d e r s h = split (ltb amount d.min_deployment_per_pool) h
  where
    amount : Amount
    amount = calculate_allocation_amount total a

    split :
        (skipped : Bool)
        → (if skipped then (ok r, d) else deploy_amount now validator a.pool_type amount r d)
          ≡ (ok s, e)
        → GoesOn validator d r e s
    split true g = record { balances = ground (arith, g); listed = ground (arith, g) }
    split false g = deploy_amount-GoesOn now validator a.pool_type amount d e r s g

deploy_all-GoesOn :
    (now : ℕ) (validator : Address) (amount : Amount) (xs : List DeploymentAllocation)
    (d e : DeploymentManager) (r s : DeploymentReport)
    → deploy_all now validator amount xs r d ≡ (ok s, e)
    → GoesOn validator d r e s
unfolding deploy_all
deploy_all-GoesOn now validator amount [] d e r s h = record {
  balances = ground (arith, h);
  listed = ground (arith, h);
}
deploy_all-GoesOn now validator amount (a ∷ xs) d e r s h =
    let (r1, d1, first, later) =
      bind-eq-ok (deploy_one now validator amount a r) (deploy_all now validator amount xs) d e s
        h in
    let x = deploy_one-GoesOn now validator amount a d d1 r r1 first in
    let y = deploy_all-GoesOn now validator amount xs d1 e r1 s later in
    record {
      balances = omega (arith, x.balances, y.balances);
      listed = omega (arith, x.listed, y.listed);
    }

-- A deployment that returns a report adds to what the validator has in the pools exactly the total of
-- the report, which is the sum of the deployments that the report lists.
pub deploy_accounts :
    (now : ℕ) (validator : Address) (amount : Amount) (d e : DeploymentManager)
    (r : DeploymentReport)
    → deploy_liquidity now validator amount d ≡ (ok r, e)
    → (get_total_deployed validator e ≡ get_total_deployed validator d + r.total_deployed)
      × (r.total_deployed ≡ sum_of deployed r.deployments)
unfolding deploy_liquidity
deploy_accounts now validator amount d e r h =
    let g = deploy_all-GoesOn now validator amount _ d e (empty_report validator) r h in
    (
      omega (
        arith,
        g.balances,
        get_total_deployed_lem validator d,
        get_total_deployed_lem validator e,
      ),
      omega (arith, g.listed),
    )

withdraw_all-keeps :
    (now : ℕ) (validator : Address) (ps : List PoolDeployment) (d e : DeploymentManager) (u : Unit)
    → withdraw_all now validator ps d ≡ (ok u, e)
    → held validator e ≡ held validator d
unfolding withdraw_all
withdraw_all-keeps now validator [] d e u h = ground (arith, h)
withdraw_all-keeps now validator (p ∷ ps) d e u h =
    let (w, f, first, later) =
      bind-eq-ok (withdraw_from now p.pool_id validator p.amount (u64_mod - 1))
        (λ (x : Unit). withdraw_all now validator ps) d e u h in
    let kept = withdraw_from-keeps now p.pool_id validator p.amount (u64_mod - 1) d in
    withdraw_all-keeps now validator ps f e u later
    ∙ (ap (λ x. held validator x.1) (sym first) ∙ kept)

-- A rebalancing that returns a report leaves the validator, in the pools, with all that it had there
-- and with what the report lists as redeployed on top.
pub rebalance_adds :
    (now : ℕ) (validator : Address) (d e : DeploymentManager) (r : RebalanceReport)
    → rebalance now validator d ≡ (ok r, e)
    → get_total_deployed validator e ≡ get_total_deployed validator d + sum_of deployed r.redeployed
unfolding rebalance
rebalance_adds now validator d e r h =
    let current = get_validator_deployments validator d in
    let (w, f, first, later) =
      bind-eq-ok (withdraw_all now validator current)
        (λ (x : Unit). deploy_liquidity now validator (sum_of deployed current) >>= λ report.
          pure (record {
            validator = validator;
            withdrawn = current;
            redeployed = report.deployments;
          }))
        d e r h in
    let (s, g, redeployed, end) =
      bind-eq-ok (deploy_liquidity now validator (sum_of deployed current))
        (λ report.
          pure (record {
            validator = validator;
            withdrawn = current;
            redeployed = report.deployments;
          }))
        f e r later in
    let x = deploy_accounts now validator (sum_of deployed current) f g s redeployed in
    let y = withdraw_all-keeps now validator current d f w first in
    ground
      (arith, x, y, end, get_total_deployed_lem validator d, get_total_deployed_lem validator f)
