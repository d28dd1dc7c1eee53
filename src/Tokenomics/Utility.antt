-- ===== src/Tokenomics/Utility.antt =====
-- crates/tokenomics/src/utility_index.rs: the metrics of the network against a baseline.
use kainotes.Prelude.{ℕ, Bool, ltb, if◌then◌else◌, not}
use kainotes.Prelude.Result.{Result, ok, fail_if, ◌>>=◌}
use kainotes.Prelude.Float.{F64, of_nat, add, sub, mul, div, less}
use kainotes.Prelude.Float.Ops.{fabs, ratio}
use kainotes.Core.Types.{Amount, is_zero, first_digit, first_digit_or}
use kainotes.Tokenomics.Error.{TokenomicsError, invalid_configuration}

pub record UtilityMetrics : Type 0 where
  pub tx_volume : Amount
  pub total_value_locked : Amount
  pub unique_addresses : ℕ
  pub contract_interactions : ℕ
  pub bridge_volume : Amount
  pub block_number : ℕ

-- `UtilityMetrics::new`
unfoldable pub new_metrics : ℕ → UtilityMetrics
new_metrics block_number = record {
  tx_volume = 0;
  total_value_locked = 0;
  unique_addresses = 0;
  contract_interactions = 0;
  bridge_volume = 0;
  block_number = block_number;
}

unfoldable pub with_values : ℕ → Amount → Amount → ℕ → ℕ → Amount → UtilityMetrics
with_values block_number tx_volume tvl unique_addresses contract_interactions bridge_volume =
    record {
      tx_volume = tx_volume;
      total_value_locked = tvl;
      unique_addresses = unique_addresses;
      contract_interactions = contract_interactions;
      bridge_volume = bridge_volume;
      block_number = block_number;
    }

pub record MetricWeights : Type 0 where
  pub tx_volume : F64
  pub tvl : F64
  pub active_users : F64
  pub contract_interactions : F64
  pub bridge_volume : F64

unfoldable pub default_weights : MetricWeights
default_weights = record {
  tx_volume = ratio 30 100;
  tvl = ratio 25 100;
  active_users = ratio 20 100;
  contract_interactions = ratio 15 100;
  bridge_volume = ratio 10 100;
}

-- `MetricWeights::validate`
unfoldable pub validate_weights : MetricWeights → Result TokenomicsError Unit
validate_weights w =
    let sum =
      add (add (add (add w.tx_volume w.tvl) w.active_users) w.contract_interactions)
        w.bridge_volume in
    fail_if (less (ratio 1 10000) (fabs (sub sum (of_nat 1)))) invalid_configuration

pub record UtilityIndex : Type 0 where
  pub baseline : UtilityMetrics
  pub weights : MetricWeights
  pub current : UtilityMetrics

-- `UtilityIndex::new`, which only validates
unfoldable pub new_index : UtilityMetrics → MetricWeights → Result TokenomicsError Unit
unfolding validate_weights
new_index baseline weights = validate_weights weights

unfoldable pub with_baseline : UtilityMetrics → UtilityIndex
unfolding default_weights new_metrics
with_baseline baseline = record {
  baseline = baseline;
  weights = default_weights;
  current = new_metrics 0;
}

unfoldable pub update_metrics : UtilityMetrics → UtilityIndex → UtilityIndex
update_metrics metrics u = record u { current = metrics }

-- `UtilityIndex::calculate_ratio`
unfoldable pub metric_ratio : Amount → Amount → F64
metric_ratio current baseline =
    if is_zero baseline
    then of_nat 1
    else div (of_nat (first_digit current)) (of_nat (first_digit_or 1 baseline))

-- The contribution of an amount, and of a count.
abbrev weigh_amount : F64 → Amount → Amount → F64 → F64
weigh_amount weight current baseline index =
    if not (is_zero baseline) then add index (mul weight (metric_ratio current baseline)) else index

abbrev weigh_count : F64 → ℕ → ℕ → F64 → F64
weigh_count weight current baseline index =
    if ltb 0 baseline
    then add index (mul weight (div (of_nat current) (of_nat baseline)))
    else index

-- `UtilityIndex::calculate`
unfoldable pub index_value : UtilityIndex → F64
unfolding metric_ratio
index_value u =
    let w = u.weights in
    let b = u.baseline in
    let c = u.current in
    weigh_amount w.bridge_volume c.bridge_volume b.bridge_volume (
      weigh_count w.contract_interactions c.contract_interactions b.contract_interactions (
        weigh_count w.active_users c.unique_addresses b.unique_addresses (
          weigh_amount w.tvl c.total_value_locked b.total_value_locked
            (weigh_amount w.tx_volume c.tx_volume b.tx_volume (of_nat 0)))))

unfoldable pub update_weights : MetricWeights → UtilityIndex → Result TokenomicsError UtilityIndex
unfolding validate_weights
update_weights weights u =
    validate_weights weights >>= λ (done : Unit). ok (record u { weights = weights })

unfoldable pub is_above_baseline : UtilityIndex → Bool
unfolding index_value
is_above_baseline u = less (of_nat 1) (index_value u)

pub data UtilityCategory : Type 0 where
  very_low low normal high very_high : UtilityCategory

unfoldable pub utility_category : UtilityIndex → UtilityCategory
unfolding index_value
utility_category u =
    let index = index_value u in
    if less index (ratio 1 2)
    then very_low
    else if less index (of_nat 1)
    then low
    else if less index (ratio 3 2)
    then normal
    else if less index (of_nat 2)
    then high
    else very_high
