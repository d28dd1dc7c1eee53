-- ===== src/Consensus/Validator/Tests.antt =====
-- Runs of the set of crates/consensus/src/validator.rs, and the theorems on it at them.
use kainotes.Prelude.{◌+◌, ◌≤◌, ◌≡◌, refl, if◌then◌else◌, ◌==◌, some, [], ◌∷◌}
use kainotes.Prelude.Result.{ok}
use kainotes.Dict.{lookup, insert, contains, IsDistinct}
use kainotes.Consensus.Validator.{
  ValidatorInfo, ValidatorSet, unbonding, exited, new_validator, new_set, register, unregister,
  process_unbonding, get_validator, total_stake, release_all,
}
use kainotes.Consensus.Validator.Registry.{
  IsReleased, registered, occurrences, process_unbonding_exact, unregister-register,
}

abbrev leaving : ValidatorInfo
leaving = record (new_validator 100 4 900 500) { status = unbonding 150 }

abbrev two_validators : ValidatorSet
two_validators = record (new_set 500 50) {
  validators = (4, leaving) ∷ (6, new_validator 100 6 700 500) ∷ [];
}

abbrev after_unbonding : ValidatorSet
after_unbonding = (process_unbonding 160 two_validators).1

two-IsDistinct : IsDistinct two_validators.validators
unfolding contains lookup
two-IsDistinct = (refl, (refl, tt))

process_unbonding_exact_example :
    IsReleased 160
      (get_validator 4 two_validators)
      (get_validator 4 after_unbonding)
      (occurrences 4 (process_unbonding 160 two_validators).0)
    × (total_stake after_unbonding ≡ total_stake two_validators)
    × (after_unbonding.min_stake ≡ two_validators.min_stake)
    × (after_unbonding.unbonding_period ≡ two_validators.unbonding_period)
process_unbonding_exact_example = process_unbonding_exact 160 4 two_validators two-IsDistinct

leaving_is_due : (process_unbonding 160 two_validators).0 ≡ 4 ∷ []
unfolding process_unbonding release_all new_validator new_set
leaving_is_due = refl

abbrev three_validators : ValidatorSet
three_validators = (register 170 9 800 20000 two_validators).1

registration_returns : register 170 9 800 20000 two_validators ≡ (ok tt, three_validators)
unfolding register new_validator new_set contains lookup insert
registration_returns = refl

unregister-register_example :
    (two_validators.min_stake ≤ 800)
    × (total_stake three_validators ≡ total_stake two_validators + 800)
    × (get_validator 4 three_validators
        ≡ (if 9 == 4 then some (registered 170 9 800 20000) else get_validator 4 two_validators))
    × (unregister 9 three_validators
        ≡ (ok (record (registered 170 9 800 20000) { status = exited }), two_validators))
unregister-register_example =
    unregister-register 170 9 4 800 20000 two_validators three_validators registration_returns
