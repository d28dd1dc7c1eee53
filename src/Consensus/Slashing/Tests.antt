-- ===== src/Consensus/Slashing/Tests.antt =====
-- A run of the manager of crates/consensus/src/slashing.rs, and the theorem on its accounts at it.
use kainotes.Prelude.{◌*◌, ◌%◌, ◌≤◌, ◌≡◌, refl, none, List, [], ◌∷◌, sum_of, u32_mod}
use kainotes.Prelude.Float.{of_nat, add, mul, div, to_word}
use kainotes.Prelude.Float.Ops.{fmin, ratio}
use kainotes.Dict.{lookup, insert}
use kainotes.Consensus.Validator.{ValidatorInfo, new_validator}
use kainotes.Consensus.Slashing.{
  SlashingManager, double_signing, new_slashing, get_offense_count, slash_validator,
  calculate_slash_amount, base_penalty_rate, severity_multiplier, from_slashed_amount,
  is_capital_offense, withdraw_insurance,
}
use kainotes.Consensus.Slashing.Accounts.{
  SlashingCall, slashes, withdraws, calls, amount_of, penalties_of, slashing_accounts,
}

abbrev offender : ValidatorInfo
offender = new_validator 100 4 1000 500

abbrev sample_calls : List SlashingCall
sample_calls =
    slashes 101 double_signing none offender
    ∷ slashes 102 double_signing none offender
    ∷ withdraws 10
    ∷ []

abbrev manager : SlashingManager
manager = calls sample_calls new_slashing

slashing_accounts_example :
    (manager.total_slashed ≡ sum_of amount_of manager.slashing_history)
    × (2 * manager.total_burned ≤ manager.total_slashed)
    × (10 * manager.insurance_fund ≤ 3 * manager.total_slashed)
    × (get_offense_count 4 manager ≡ penalties_of 4 manager.slashing_history % u32_mod)
slashing_accounts_example = slashing_accounts sample_calls 4

-- The second offense costs half as much again as the first.
two_penalties : manager.total_slashed ≡ 125
unfolding slash_validator calculate_slash_amount base_penalty_rate severity_multiplier
    from_slashed_amount is_capital_offense get_offense_count withdraw_insurance new_slashing
    new_validator lookup insert of_nat add mul div to_word fmin ratio
two_penalties = refl
