-- ===== src/Tokenomics/Burning/Tests.antt =====
-- A run of the mechanism of crates/tokenomics/src/burning.rs, and the theorem on its totals at it.
use kainotes.Prelude.{◌+◌, ◌≡◌, refl, List, [], ◌∷◌, sum_of}
use kainotes.Prelude.Float.{of_nat, sub, mul, div, to_word}
use kainotes.Prelude.Float.Ops.{fmin, at_most, ratio}
use kainotes.Core.Samples.{sample_host, signed}
use kainotes.Core.Transaction.{TransactionType, calculate_fee}
use kainotes.Core.Block.{transaction_hash}
use kainotes.Tokenomics.Burning.{
  BurningMechanism, default_burn, new_burning, burn_transaction_fees, burn_fees, calculate_fee_burn,
  burn_excess_utility, burn_slashed, buyback_and_burn,
}
use kainotes.Tokenomics.Burning.Totals.{
  BurnCall, burns_fees, burns_excess, burns_slashed, buys_back, calls, burned, fees, excess,
  slashed, bought, burns_add_up,
}

abbrev sample_calls : List BurnCall
sample_calls =
    burns_fees 100 (signed 4 0 (TransactionType.stake 10) ∷ []) 7
    ∷ burns_excess 101 (of_nat 3) 1000 8
    ∷ burns_slashed 102 4 50 8
    ∷ buys_back 103 25 9
    ∷ []

abbrev mechanism : BurningMechanism
mechanism = calls sample_host sample_calls (new_burning default_burn)

burns_add_up_example :
    (mechanism.total_burned ≡ sum_of burned mechanism.history)
    × (mechanism.fee_burns ≡ sum_of fees mechanism.history)
    × (mechanism.excess_burns ≡ sum_of excess mechanism.history)
    × (mechanism.slashing_burns ≡ sum_of slashed mechanism.history)
    × (mechanism.buyback_burns ≡ sum_of bought mechanism.history)
    × (mechanism.total_burned
        ≡ mechanism.fee_burns + mechanism.excess_burns + mechanism.slashing_burns
          + mechanism.buyback_burns)
burns_add_up_example = burns_add_up sample_host default_burn sample_calls

-- Thirty percent of the fee, and all of the treasury at twice the target.
all_burned : mechanism.total_burned ≡ 13675
unfolding new_burning default_burn burn_transaction_fees burn_fees calculate_fee_burn
    burn_excess_utility burn_slashed buyback_and_burn transaction_hash of_nat sub mul div to_word
    fmin at_most ratio calculate_fee
all_burned = refl
