-- ===== src/Tokenomics/Rewards.antt =====
-- crates/tokenomics/src/rewards.rs: the rewards of the validators for a block.
pub mod History
mod Tests
use kainotes.Prelude.{
  ℕ, ◌+◌, ◌*◌, Bool, true, false, Option, none, some, List, [], ◌∷◌, ◌++◌, ltb, ◌==◌, if◌then◌else◌,
  sum_of, filter_by, u64_mod,
}
use kainotes.Prelude.Result.{Result, ok, err, panic, ok_or, unwrap_or}
use kainotes.Prelude.Result.Exec.{Exec, pure, lift, gets, modify, ◌>>=◌, ◌>>◌}
use kainotes.Prelude.Float.{F64, of_nat, add, mul, div, less, to_word}
use kainotes.Prelude.Float.Ops.{fmin, ratio}
use kainotes.Dict.{Dict, insert}
use kainotes.Core.Types.{Address, Amount, is_zero, checked_sub, first_digit, first_digit_or}
use kainotes.Consensus.Validator.{ValidatorInfo}
use kainotes.Tokenomics.Error.{TokenomicsError, reward_distribution_error}
use kainotes.Tokenomics.Utility.{UtilityIndex}
use kainotes.Tokenomics.Phase.{MintingPhase, bootstrap, utility_driven}

pub record RewardCalculation : Type 0 where
  pub validator : Address
  pub base_reward : Amount
  pub stake_weight : F64
  pub time_factor : F64
  pub block_bonus : F64
  pub utility_factor : Option F64
  pub final_reward : Amount
  pub commission : Amount
  pub net_reward : Amount

pub record RewardDistributor : Type 0 where
  pub phase : MintingPhase
  pub utility_index : Option UtilityIndex
  pub history : List RewardCalculation

-- `RewardDistributor::new`
unfoldable pub new_distributor : MintingPhase → RewardDistributor
new_distributor phase = record { phase = phase; utility_index = none; history = [] }

unfoldable pub set_phase : MintingPhase → RewardDistributor → RewardDistributor
set_phase phase d = record d { phase = phase }

-- `RewardDistributor::set_utility_index`
unfoldable pub set_index : UtilityIndex → RewardDistributor → RewardDistributor
set_index utility_index d = record d { utility_index = some utility_index }

-- 1.2 for the producer of the block
abbrev bonus : Bool → F64
bonus produced_block = if produced_block then ratio 12 10 else of_nat 1

-- The ratio of an amount to another that is not zero.
abbrev part_of : Amount → Amount → F64
part_of part whole =
    if is_zero whole
    then of_nat 0
    else div (of_nat (first_digit part)) (of_nat (first_digit_or 1 whole))

abbrev commission_on : F64 → ValidatorInfo → Amount
commission_on base_reward v =
    to_word u64_mod (div (mul base_reward (of_nat v.commission_rate)) (of_nat 10000))

abbrev net_of : Amount → Amount → Amount
net_of base_reward commission = unwrap_or base_reward (checked_sub base_reward commission)

unfoldable pub calculate_phase1_reward :
    ValidatorInfo → Amount → Amount → ℕ → Bool → RewardCalculation
calculate_phase1_reward v network_mint total_stake blocks_staked produced_block =
    let stake_weight = part_of v.stake total_stake in
    let time_factor = fmin (div (of_nat blocks_staked) (of_nat 100000)) (of_nat 1) in
    let block_bonus = bonus produced_block in
    let value =
      mul (mul (mul (of_nat (first_digit network_mint)) stake_weight) time_factor) block_bonus in
    let base_reward = to_word u64_mod value in
    let commission = commission_on value v in
    record {
      validator = v.address;
      base_reward = base_reward;
      stake_weight = stake_weight;
      time_factor = time_factor;
      block_bonus = block_bonus;
      utility_factor = none;
      final_reward = base_reward;
      commission = commission;
      net_reward = net_of base_reward commission;
    }

unfoldable pub calculate_phase2_reward :
    ValidatorInfo → Amount → F64 → F64 → Bool → RewardCalculation
calculate_phase2_reward v network_mint total_utility validator_utility produced_block =
    let utility_weight =
      (if less (of_nat 0) total_utility then div validator_utility total_utility else of_nat 0) in
    let block_bonus = bonus produced_block in
    let value = mul (mul (of_nat (first_digit network_mint)) utility_weight) block_bonus in
    let base_reward = to_word u64_mod value in
    let commission = commission_on value v in
    record {
      validator = v.address;
      base_reward = base_reward;
      stake_weight = utility_weight;
      time_factor = of_nat 1;
      block_bonus = block_bonus;
      utility_factor = some utility_weight;
      final_reward = base_reward;
      commission = commission;
      net_reward = net_of base_reward commission;
    }

unfoldable pub calculate_validator_utility : ValidatorInfo → F64
calculate_validator_utility v =
    let liquidity_factor = part_of v.liquidity_deployed v.stake in
    mul (mul (of_nat v.utility_score) (add (of_nat 1) liquidity_factor))
      (div (of_nat v.uptime) (of_nat 10000))

abbrev is_producer : Option Address → ValidatorInfo → Bool
is_producer none v = false
is_producer (some a) v = a == v.address

abbrev sum_utility : F64 → List ValidatorInfo → F64
sum_utility acc [] = acc
sum_utility acc (v ∷ vs) = sum_utility (add acc (calculate_validator_utility v)) vs

-- The loop over the validators, with the reward of one of them.
unfoldable pub reward_all :
    (ValidatorInfo → RewardCalculation)
    → List ValidatorInfo
    → Dict RewardCalculation
    → RewardDistributor
    → Dict RewardCalculation × RewardDistributor
reward_all reward [] rewards d = (rewards, d)
reward_all reward (v ∷ vs) rewards d =
    reward_all reward vs (insert v.address (reward v) rewards)
      (record d { history = d.history ++ (reward v ∷ []) })

-- The reward of a validator in the phase of the distributor.
abbrev pub reward_in :
    RewardDistributor
    → List ValidatorInfo
    → Amount
    → Amount
    → Option Address
    → Result TokenomicsError (ValidatorInfo → RewardCalculation)
reward_in d validators network_mint total_stake produced_by = elim d.phase [
  | bootstrap ↦
      ok
        (λ v. calculate_phase1_reward v network_mint total_stake 100000 (is_producer produced_by v))
  | utility_driven ↦ elim d.utility_index [
    | none ↦ err reward_distribution_error
    | some u ↦
        let total_utility = sum_utility (of_nat 0) validators in
        ok (λ v.
          calculate_phase2_reward v network_mint total_utility (calculate_validator_utility v)
            (is_producer produced_by v))
  ]
]

unfoldable pub distribute_rewards :
    List ValidatorInfo
    → Amount
    → Amount
    → Option Address
    → Exec TokenomicsError RewardDistributor (Dict RewardCalculation)
unfolding reward_all calculate_phase1_reward calculate_phase2_reward calculate_validator_utility
distribute_rewards validators network_mint total_stake produced_by = do
  reward ←
      λ (d : RewardDistributor). (reward_in d validators network_mint total_stake produced_by, d)
  λ (d : RewardDistributor). let (rewards, e) = reward_all reward validators [] d in (ok rewards, e)

abbrev pub reward_of : RewardCalculation → Amount
reward_of r = r.final_reward

unfoldable pub total_distributed : RewardDistributor → Amount
total_distributed d = sum_of reward_of d.history

unfoldable pub validator_total_rewards : Address → RewardDistributor → Amount
validator_total_rewards address d =
    sum_of reward_of (filter_by (λ (r : RewardCalculation). r.validator == address) d.history)
