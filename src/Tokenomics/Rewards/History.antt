-- ===== src/Tokenomics/Rewards/History.antt =====
-- What a distribution of crates/tokenomics/src/rewards.rs adds to the history.
use kainotes.Prelude.{
  ℕ, ◌+◌, ◌≡◌, refl, Option, none, List, [], ◌∷◌, ◌++◌, arith, ◌==◌, if◌then◌else◌, sum_of,
  sum_of-append,
}
use kainotes.Prelude.Result.{Result, ok, err, panic}
use kainotes.Prelude.Result.Exec.{continue}
use kainotes.Tokenomics.Error.{TokenomicsError}
use kainotes.Dict.{Dict, lookup, insert}
use kainotes.Dict.Laws.{lookup-insert}
use kainotes.Dict.Sums.{total, total-insert}
use kainotes.Core.Types.{Address, Amount}
use kainotes.Consensus.Validator.{ValidatorInfo}
use kainotes.Tokenomics.Rewards.{
  RewardCalculation, RewardDistributor, reward_all, reward_in, reward_of, distribute_rewards,
  total_distributed,
}

-- How often an address occurs.
abbrev pub with_address : Address → List ValidatorInfo → ℕ
with_address k vs = sum_of (λ (v : ValidatorInfo). if v.address == k then 1 else 0) vs

-- No two validators have the same address.
abbrev pub AreDistinct : List ValidatorInfo → Type 0
AreDistinct [] = Unit
AreDistinct (v ∷ vs) = (with_address v.address vs ≡ 0) × AreDistinct vs

-- No validator has a reward yet.
abbrev AreNew : Dict RewardCalculation → List ValidatorInfo → Type 0
AreNew rs [] = Unit
AreNew rs (v ∷ vs) = (lookup v.address rs ≡ none) × AreNew rs vs

insert-AreNew :
    (k : Address) (r : RewardCalculation) (rs : Dict RewardCalculation) (vs : List ValidatorInfo)
    → with_address k vs ≡ 0
    → AreNew rs vs
    → AreNew (insert k r rs) vs
insert-AreNew k r rs [] h n = tt
insert-AreNew k r rs (v ∷ vs) h n = (
  ground (arith, h, n.0, lookup-insert v.address k r rs),
  insert-AreNew k r rs vs (ground (arith, h)) n.1,
)

reward_all-total :
    (reward : ValidatorInfo → RewardCalculation) (vs : List ValidatorInfo)
    (rs : Dict RewardCalculation) (d : RewardDistributor)
    → AreDistinct vs
    → AreNew rs vs
    → let (rewards, e) = reward_all reward vs rs d in
      total_distributed e + total reward_of rs ≡ total_distributed d + total reward_of rewards
unfolding reward_all total_distributed
reward_all-total reward [] rs d u n = refl
reward_all-total reward (v ∷ vs) rs d u n =
    let later =
      reward_all-total reward vs (insert v.address (reward v) rs)
        (record d { history = d.history ++ (reward v ∷ []) }) u.1
        (insert-AreNew v.address (reward v) rs vs u.0 n.1) in
    ground (
      arith,
      later,
      n.0,
      total-insert reward_of v.address (reward v) rs,
      sum_of-append reward_of d.history (reward v ∷ []),
    )

none_AreNew : (vs : List ValidatorInfo) → AreNew [] vs
unfolding lookup
none_AreNew [] = tt
none_AreNew (v ∷ vs) = (refl, none_AreNew vs)

-- A distribution to validators with different addresses that returns adds to what was distributed
-- exactly what the rewards it returns add up to.
pub distribute_rewards-total :
    (validators : List ValidatorInfo) (network_mint total_stake : Amount)
    (producer : Option Address) (d e : RewardDistributor) (rewards : Dict RewardCalculation)
    → AreDistinct validators
    → distribute_rewards validators network_mint total_stake producer d ≡ (ok rewards, e)
    → total_distributed e ≡ total_distributed d + total reward_of rewards
unfolding distribute_rewards
distribute_rewards-total validators network_mint total_stake producer d e rewards u h =
    split (reward_in d validators network_mint total_stake producer) h
  where
    split :
        (r : Result TokenomicsError (ValidatorInfo → RewardCalculation))
        → continue r
            (λ reward (d : RewardDistributor).
              let (rs, e) = reward_all reward validators [] d in (ok rs, e))
            d
          ≡ (ok rewards, e)
        → total_distributed e ≡ total_distributed d + total reward_of rewards
    split (ok reward) g =
        ground (arith, g, reward_all-total reward validators [] d u (none_AreNew validators))
    split (err x) g = cc
    split panic g = cc
