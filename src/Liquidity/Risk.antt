-- ===== src/Liquidity/Risk.antt =====
-- crates/liquidity/src/risk.rs: scores of pools, and an allocation over the pools within a profile.
pub mod Bounds
use kainotes.Prelude.{
  ℕ, ◌+◌, ◌-◌, ◌*◌, ◌/◌, ◌%◌, Bool, true, false, ◌||◌, ◌&&◌, Option, none, some, List, [], ◌∷◌, map,
  length, ltb, leb, ◌==◌, if◌then◌else◌, min, filter_by, u64_mod, u16_mod,
}
use kainotes.Prelude.Result.{Result, ok, err, panic, unwrap_or, ◌>>=◌, ◌>>◌}
use kainotes.Prelude.Float.{F64, nan, of_nat, add, mul, div, less, equal, to_word}
use kainotes.Prelude.Float.Ops.{fmin, ratio}
use kainotes.Dict.{Dict, lookup, insert}
use kainotes.Core.Types.{Amount, is_zero, first_digit, first_digit_or}
use kainotes.Core.Transaction.{is_empty}
use kainotes.Liquidity.Error.{LiquidityError, risk_error}
use kainotes.Liquidity.Pool.{
  PoolType, amm, lending, treasury, stability_reserve, PoolInfo, risk_adjusted_return,
}

pub data RiskCategory : Type 0 where
  very_low low medium high very_high : RiskCategory

unfoldable pub from_score : ℕ → RiskCategory
from_score score =
    if leb score 2000
    then very_low
    else if leb score 4000
    then low
    else if leb score 6000
    then medium
    else if leb score 8000
    then high
    else very_high

unfoldable pub max_allocation_percentage : RiskCategory → F64
max_allocation_percentage very_low = of_nat 100
max_allocation_percentage low = of_nat 50
max_allocation_percentage medium = of_nat 30
max_allocation_percentage high = of_nat 15
max_allocation_percentage very_high = of_nat 5

pub record RiskAssessment : Type 0 where
  pub risk_score : ℕ
  pub volatility_risk : ℕ
  pub contract_risk : ℕ
  pub liquidity_risk : ℕ
  pub counterparty_risk : ℕ
  pub risk_category : RiskCategory

unfoldable pub calculate_aggregate : RiskAssessment → ℕ
calculate_aggregate a =
    let weighted =
      (a.volatility_risk * 30
        + a.contract_risk * 25
        + a.liquidity_risk * 25
        + a.counterparty_risk * 20)
      / 100 in
    min (weighted % u16_mod) 10000

unfoldable pub categorize : RiskAssessment → RiskCategory
unfolding from_score calculate_aggregate
categorize a = from_score (calculate_aggregate a)

pub record RiskProfile : Type 0 where
  pub max_risk_score : ℕ
  pub max_high_risk_percentage : F64
  pub min_pool_diversification : ℕ
  pub max_single_pool_percentage : F64

-- `RiskProfile::default`
unfoldable pub default_profile : RiskProfile
default_profile = record {
  max_risk_score = 5000;
  max_high_risk_percentage = of_nat 20;
  min_pool_diversification = 3;
  max_single_pool_percentage = of_nat 40;
}

-- `RiskProfile::conservative`
unfoldable pub conservative_profile : RiskProfile
conservative_profile = record {
  max_risk_score = 3000;
  max_high_risk_percentage = of_nat 10;
  min_pool_diversification = 4;
  max_single_pool_percentage = of_nat 30;
}

-- `RiskProfile::aggressive`
unfoldable pub aggressive_profile : RiskProfile
aggressive_profile = record {
  max_risk_score = 7000;
  max_high_risk_percentage = of_nat 40;
  min_pool_diversification = 2;
  max_single_pool_percentage = of_nat 60;
}

unfoldable pub accepts_pool : RiskProfile → PoolInfo → Bool
accepts_pool r p = leb p.risk_score r.max_risk_score

pub record RiskCalculator : Type 0 where
  pub volatility_cache : Dict F64

-- `RiskCalculator::new`
unfoldable pub new_calculator : RiskCalculator
new_calculator = record { volatility_cache = [] }

unfoldable pub calculate_volatility_risk : PoolInfo → RiskCalculator → ℕ
calculate_volatility_risk p c =
    let volatility = unwrap_or (ratio 15 100) (lookup p.id c.volatility_cache) in
    to_word u16_mod (fmin (mul volatility (of_nat 10000)) (of_nat 10000))

unfoldable pub calculate_contract_risk : ℕ → PoolInfo → ℕ
calculate_contract_risk now p =
    let age_days = (now - p.created_at) / (24 * 3600) in
    let age_factor =
      (if age_days == 0
        then of_nat 1
        else div (of_nat 1)
            (add (of_nat 1) (fmin (div (of_nat age_days) (of_nat 365)) (of_nat 1)))) in
    min (to_word u16_mod (mul (of_nat 3000) age_factor)) 10000

unfoldable pub calculate_liquidity_risk : PoolInfo → ℕ
calculate_liquidity_risk p =
    let tvl_millions = div (of_nat (first_digit_or 1 p.tvl)) (of_nat 1000000) in
    min
      (if less tvl_millions (ratio 1 10)
        then 8000
        else if less tvl_millions (of_nat 1)
        then 5000
        else if less tvl_millions (of_nat 10)
        then 2000
        else 500)
      10000

unfoldable pub calculate_counterparty_risk : PoolInfo → ℕ
calculate_counterparty_risk p = elim p.pool_type [
  | treasury ↦ 500
  | stability_reserve ↦ 1000
  | lending ↦ 3000
  | amm ↦ 4000
]

unfoldable pub assess_pool : ℕ → PoolInfo → RiskCalculator → RiskAssessment
unfolding calculate_volatility_risk calculate_contract_risk calculate_liquidity_risk
    calculate_counterparty_risk from_score
assess_pool now p c = record {
  risk_score = p.risk_score;
  volatility_risk = calculate_volatility_risk p c;
  contract_risk = calculate_contract_risk now p;
  liquidity_risk = calculate_liquidity_risk p;
  counterparty_risk = calculate_counterparty_risk p;
  risk_category = from_score p.risk_score;
}

unfoldable pub calculate_rar : ℕ → PoolInfo → Amount → Amount → RiskCalculator → F64
unfolding assess_pool calculate_aggregate
calculate_rar now p protocol_reward defi_yield c =
    let risk_score = of_nat (calculate_aggregate (assess_pool now p c)) in
    if equal risk_score (of_nat 0)
    then of_nat 0
    else div (add (of_nat (first_digit protocol_reward)) (of_nat (first_digit defi_yield)))
        (div risk_score (of_nat 100))

-- A stable sort by the second part, the greatest first.
abbrev put_desc : ℕ × F64 → List (ℕ × F64) → List (ℕ × F64)
put_desc x [] = x ∷ []
put_desc x (y ∷ ys) = let rest = put_desc x ys in if less x.1 y.1 then y ∷ rest else x ∷ y ∷ ys

abbrev sorted_desc : List (ℕ × F64) → List (ℕ × F64)
sorted_desc [] = []
sorted_desc (x ∷ xs) = put_desc x (sorted_desc xs)

abbrev has_nan : List (ℕ × F64) → Bool
has_nan [] = false
has_nan ((id, nan) ∷ xs) = true
has_nan ((id, x) ∷ xs) = has_nan xs

-- `sort_by` with `partial_cmp(..).unwrap()`
unfoldable pub sort_desc : List (ℕ × F64) → Result LiquidityError (List (ℕ × F64))
sort_desc xs = if has_nan xs && ltb 1 (length xs) then panic else ok (sorted_desc xs)

-- `sum` of the second parts
abbrev sum_rar : F64 → List (ℕ × F64) → F64
sum_rar acc [] = acc
sum_rar acc (x ∷ xs) = sum_rar (add acc x.1) xs

-- The loop that allocates.
unfoldable pub allocate : F64 → F64 → F64 → List (ℕ × F64) → List (ℕ × Amount)
allocate total_val total_rar cap [] = []
allocate total_val total_rar cap ((id, rar) ∷ xs) =
    let percentage = mul (div rar total_rar) (of_nat 100) in
    let amount = to_word u64_mod (div (mul total_val (fmin percentage cap)) (of_nat 100)) in
    let rest = allocate total_val total_rar cap xs in
    if is_zero amount then rest else (id, amount) ∷ rest

unfoldable pub calculate_optimal_allocation :
    List PoolInfo → Amount → RiskProfile → Result LiquidityError (List (ℕ × Amount))
unfolding accepts_pool sort_desc allocate
calculate_optimal_allocation pools total_amount profile =
    let acceptable = filter_by (accepts_pool profile) pools in
    if is_empty acceptable
    then err risk_error
    else sort_desc (map (λ (p : PoolInfo). (p.id, risk_adjusted_return p)) acceptable) >>= λ scores.
        ok (
          allocate (of_nat (first_digit total_amount)) (sum_rar (of_nat 0) scores)
            profile.max_single_pool_percentage scores)

unfoldable pub update_volatility : ℕ → F64 → RiskCalculator → RiskCalculator
update_volatility pool_id volatility c = record c {
  volatility_cache = insert pool_id volatility c.volatility_cache;
}
