-- ===== src/Consensus/Selection/Tests.antt =====
-- Choices of crates/consensus/src/selection.rs, and the theorems on them at concrete validators.
use kainotes.Prelude.{
  ℕ, ◌+◌, ◌%◌, ◌≤◌, ◌<◌, ◌≡◌, refl, List, [], ◌∷◌, length, arith, sum_of, u64_mod,
}
use kainotes.Prelude.Result.{ok}
use kainotes.Prelude.Float.{of_nat, add, mul, div, to_word}
use kainotes.Core.Types.{Address}
use kainotes.Consensus.Validator.{
  ValidatorInfo, new_validator, can_produce_blocks, is_active, reliability_factor, efficiency_score,
}
use kainotes.Consensus.Selection.{
  calculate_weight, calculate_weights, weight_of, select_for_slot, add_up, select_committee,
  select_validator, pick, draw, take_off,
}
use kainotes.Consensus.Selection.Turns.{every_validator_is_chosen}
use kainotes.Consensus.Selection.Committee.{committee_distinct, present}
use kainotes.Consensus.Validator.Registry.{occurrences}

abbrev two : List ValidatorInfo
two = new_validator 100 4 1000 500 ∷ new_validator 100 6 500 500 ∷ []

weight_of_second : 0 < calculate_weight (new_validator 100 6 500 500)
unfolding calculate_weight new_validator can_produce_blocks is_active reliability_factor
    efficiency_score of_nat add mul div to_word
weight_of_second = omega arith

weights_are_small : sum_of weight_of (calculate_weights two) < u64_mod
unfolding calculate_weights calculate_weight new_validator can_produce_blocks is_active
    reliability_factor efficiency_score of_nat add mul div to_word
weights_are_small = omega arith

every_validator_is_chosen_example :
    (slot : ℕ) × (7000 ≤ slot)
    × (slot < 7000 + sum_of weight_of (calculate_weights two))
    × (select_for_slot two slot ≡ ok (new_validator 100 6 500 500).address)
every_validator_is_chosen_example =
    every_validator_is_chosen (new_validator 100 4 1000 500 ∷ []) (new_validator 100 6 500 500) []
      7000 weight_of_second weights_are_small

-- The weights are 1000 and 500.
second_is_chosen : select_for_slot two 4200 ≡ ok 6
unfolding select_for_slot add_up calculate_weights calculate_weight new_validator can_produce_blocks
    is_active reliability_factor efficiency_score of_nat add mul div to_word
second_is_chosen = refl

-- A generator whose state is the next number.
abbrev counting : ℕ → ℕ → ℕ × ℕ
counting bound n = (n % bound, n + 700)

committee_is_chosen : select_committee counting two 3 600 ≡ (ok (4 ∷ 6 ∷ []), 2000)
unfolding select_committee pick select_validator draw take_off calculate_weights calculate_weight
    new_validator can_produce_blocks is_active reliability_factor efficiency_score of_nat add mul
    div to_word
committee_is_chosen = refl

committee_distinct_example :
    (occurrences 6 (4 ∷ 6 ∷ []) ≤ present 6 two)
    × (present 6 two ≤ 1)
    × (length {A = Address} (4 ∷ 6 ∷ []) ≤ 3)
committee_distinct_example =
    committee_distinct counting two 3 (4 ∷ 6 ∷ []) 600 2000 6 committee_is_chosen
