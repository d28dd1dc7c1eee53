-- ===== src/Consensus/Poas/Metrics.antt =====
-- What crates/consensus/src/poas.rs reports of its validators, and the reward of one of them.
use kainotes.Prelude.{ℕ, ◌+◌, ◌*◌, ◌/◌, ◌%◌, List, map, length, if◌then◌else◌, u64_mod}
use kainotes.Prelude.Float.{F64}
use kainotes.Core.Types.{Address, Amount, is_zero}
use kainotes.Consensus.Validator.{
  ValidatorInfo, active_validators, all_validators, total_stake, total_liquidity_deployed,
}
use kainotes.Consensus.Selection.{nakamoto_coefficient, gini_coefficient}
use kainotes.Consensus.Poas.{PoasConsensus}

pub record SecurityMetrics : Type 0 where
  pub nakamoto_coefficient : ℕ
  pub gini_coefficient : F64
  pub total_stake : Amount
  pub total_liquidity : Amount
  pub active_validators : ℕ
  pub attack_cost : Amount

unfoldable pub calculate_security_metrics : PoasConsensus → SecurityMetrics
unfolding active_validators total_stake total_liquidity_deployed nakamoto_coefficient
    gini_coefficient
calculate_security_metrics c =
    let validators = active_validators c.validator_set in
    record {
      nakamoto_coefficient = nakamoto_coefficient validators;
      gini_coefficient = gini_coefficient validators;
      total_stake = total_stake c.validator_set;
      total_liquidity = total_liquidity_deployed c.validator_set;
      active_validators = length validators;
      attack_cost = (total_stake c.validator_set * 33) / 100;
    }

unfoldable pub calculate_validator_reward : ValidatorInfo → Amount → PoasConsensus → Amount
unfolding total_stake
calculate_validator_reward v base_reward c =
    let total = total_stake c.validator_set in
    let stake_ratio = (v.stake * 10000) / total in
    let utility_factor = (10000 + v.utility_score) % u64_mod in
    if is_zero total then 0 else (base_reward * stake_ratio * utility_factor) / (10000 * 10000)

unfoldable pub validator_participation : PoasConsensus → List (Address × ℕ × ℕ × ℕ)
validator_participation c =
    map (λ (v : ValidatorInfo). (v.address, v.uptime, v.blocks_produced, v.blocks_missed))
      (all_validators c.validator_set)
