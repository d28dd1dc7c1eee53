-- ===== src/Liquidity/Risk/Bounds.antt =====
-- The range of the scores of crates/liquidity/src/risk.rs.
use kainotes.Prelude.{ℕ, ◌+◌, ◌*◌, ◌/◌, ◌≤◌, ◌≡◌, refl, sym, subst, false, arith, u16_mod}
use kainotes.Prelude.Result.{unwrap_or}
use kainotes.Prelude.Float.{finite, one_in_units, of_nat, mul, to_word}
use kainotes.Prelude.Float.Ops.{fmin, ratio, to_word-fmin}
use kainotes.Dict.{lookup}
use kainotes.Liquidity.Pool.{PoolInfo}
use kainotes.Liquidity.Risk.{
  RiskCalculator, assess_pool, calculate_aggregate, calculate_volatility_risk,
  calculate_contract_risk, calculate_liquidity_risk, calculate_counterparty_risk,
}

limit_exact : of_nat 10000 ≡ finite false (10000 * one_in_units)
unfolding of_nat
limit_exact = refl

volatility-le : (p : PoolInfo) (c : RiskCalculator) → calculate_volatility_risk p c ≤ 10000
unfolding calculate_volatility_risk
volatility-le p c =
    let x = mul (unwrap_or (ratio 15 100) (lookup p.id c.volatility_cache)) (of_nat 10000) in
    subst (λ y. to_word u16_mod (fmin x y) ≤ 10000) (sym limit_exact)
      (to_word-fmin u16_mod 10000 x (omega arith))

contract-le : (now : ℕ) (p : PoolInfo) → calculate_contract_risk now p ≤ 10000
unfolding calculate_contract_risk
contract-le now p = omega arith

liquidity-le : (p : PoolInfo) → calculate_liquidity_risk p ≤ 10000
unfolding calculate_liquidity_risk
liquidity-le p = omega arith

counterparty-le : (p : PoolInfo) → calculate_counterparty_risk p ≤ 10000
unfolding calculate_counterparty_risk
counterparty-le p = ground arith

-- Each of the four components of an assessment is at most 10000, so the aggregate is their weighted
-- mean exactly: the cast to 16 bits and the cap change nothing.
aggregate_exact :
    (now : ℕ) (p : PoolInfo) (c : RiskCalculator)
    → let a = assess_pool now p c in
      (a.volatility_risk ≤ 10000)
      × (a.contract_risk ≤ 10000)
      × (a.liquidity_risk ≤ 10000)
      × (a.counterparty_risk ≤ 10000)
      × (calculate_aggregate a
          ≡ (a.volatility_risk * 30
              + a.contract_risk * 25
              + a.liquidity_risk * 25
              + a.counterparty_risk * 20)
            / 100)
unfolding assess_pool calculate_aggregate
aggregate_exact now p c =
    let v = volatility-le p c in
    let k = contract-le now p in
    let l = liquidity-le p in let t = counterparty-le p in (v, k, l, t, omega arith)
