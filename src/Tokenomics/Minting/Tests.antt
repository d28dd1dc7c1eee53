-- ===== src/Tokenomics/Minting/Tests.antt =====
-- A run of the controller of crates/tokenomics/src/minting.rs, and the theorem on its phase at it.
use kainotes.Prelude.{◌≡◌, refl, false, List, [], ◌∷◌}
use kainotes.Prelude.Result.{ok}
use kainotes.Prelude.Float.{F64, of_nat}
use kainotes.Tokenomics.Utility.{new_metrics}
use kainotes.Tokenomics.Phase.{
  calculate_blend_factor, utility_driven, bootstrap, default_ivt, new_phases, is_in_blend_period,
  update_statistics, execute_governance_override,
}
use kainotes.Tokenomics.Minting.{
  MintingController, default_minting, new_controller, get_minting_rate, calculate_phase1_rate,
}
use kainotes.Tokenomics.Minting.Stuck.{
  factors, MintCall, overrides, counts, call, calls, stays_in_first_phase,
}

-- Any function can stand for the exponential.
abbrev flat : F64 → F64
flat x = of_nat 1

abbrev sample_calls : List MintCall
sample_calls = counts 1000 500 ∷ overrides 50 1000 (new_metrics 1000) ∷ []

abbrev overridden : MintingController
overridden = calls flat sample_calls (new_controller default_minting (new_phases default_ivt) 0)

blend_is_over : is_in_blend_period 900000 overridden.phase_manager ≡ false
unfolding is_in_blend_period execute_governance_override new_controller new_phases default_ivt
    update_statistics
blend_is_over = refl

stays_in_first_phase_example :
    (overridden.phase_manager.current_phase ≡ bootstrap)
    × (get_minting_rate flat 900000 overridden
        ≡ (ok (calculate_phase1_rate flat 900000 overridden), overridden))
stays_in_first_phase_example =
    stays_in_first_phase flat default_minting default_ivt 0 900000 sample_calls (tt, (tt, tt))
      blend_is_over

-- The blend factor, asked for past the blend period, ends the first phase.
asked_for_the_factor :
    (call flat (factors 900000) overridden).phase_manager.current_phase ≡ utility_driven
unfolding calculate_blend_factor execute_governance_override new_controller new_phases default_ivt
    update_statistics
asked_for_the_factor = refl
