-- ===== src/Tokenomics/Rewards/Tests.antt =====
-- A distribution of crates/tokenomics/src/rewards.rs, and the theorem on its total at it.
use kainotes.Prelude.{◌+◌, ◌≡◌, refl, true, false, some, List, [], ◌∷◌}
use kainotes.Prelude.Result.{ok}
use kainotes.Dict.{Dict, insert}
use kainotes.Dict.Sums.{total}
use kainotes.Consensus.Validator.{ValidatorInfo, new_validator}
use kainotes.Tokenomics.Phase.{bootstrap}
use kainotes.Tokenomics.Rewards.{
  RewardCalculation, RewardDistributor, new_distributor, calculate_phase1_reward,
  distribute_rewards, reward_all, reward_of, total_distributed,
}
use kainotes.Tokenomics.Rewards.History.{AreDistinct, distribute_rewards-total}

abbrev first : ValidatorInfo
first = new_validator 100 4 1000 500

abbrev second : ValidatorInfo
second = new_validator 100 6 500 500

abbrev two : List ValidatorInfo
two = first ∷ second ∷ []

abbrev start : RewardDistributor
start = new_distributor bootstrap

abbrev rewards : Dict RewardCalculation
rewards =
    insert 6 (calculate_phase1_reward second 1000 1500 100000 true)
      (insert 4 (calculate_phase1_reward first 1000 1500 100000 false) [])

abbrev finish : RewardDistributor
finish = (distribute_rewards two 1000 1500 (some 6) start).1

distribution_returns : distribute_rewards two 1000 1500 (some 6) start ≡ (ok rewards, finish)
unfolding distribute_rewards reward_all new_distributor new_validator
distribution_returns = refl

two-AreDistinct : AreDistinct two
unfolding new_validator
two-AreDistinct = (refl, (refl, tt))

distribute_rewards-total_example :
    total_distributed finish ≡ total_distributed start + total reward_of rewards
distribute_rewards-total_example =
    distribute_rewards-total two 1000 1500 (some 6) start finish rewards two-AreDistinct
      distribution_returns
