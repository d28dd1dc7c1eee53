-- ===== src/Tokenomics/Minting/Stuck.antt =====
-- The phase that the controller of crates/tokenomics/src/minting.rs stays in.
use kainotes.Prelude.{ℕ, ◌≡◌, refl, ap, ◌∙◌, true, false, List, [], ◌∷◌, All, arith}
use kainotes.Prelude.Result.{ok, ok_or}
use kainotes.Prelude.Result.Exec.{bind-keeps, ◌>>=◌, ◌>>◌, gets, lift, pure, modify}
use kainotes.Prelude.Float.{F64}
use kainotes.Core.Types.{Amount, checked_add}
use kainotes.Tokenomics.Error.{overflow_error}
use kainotes.Tokenomics.Utility.{UtilityMetrics, UtilityIndex}
use kainotes.Tokenomics.Phase.{
  bootstrap, IvtConfig, PhaseManager, PhaseExec, new_phases, update_statistics, announce_transition,
  execute_transition, execute_governance_override, calculate_blend_factor, is_in_blend_period,
}
use kainotes.Tokenomics.Minting.{
  MintingConfig, MintingController, new_controller, set_utility_index, calculate_phase1_rate,
  calculate_blended_rate, get_minting_rate, mint_for_block, calculate_annual_inflation,
}

-- Within the blend period the factor changes nothing.
calculate_blend_factor-keeps :
    (n : ℕ) (p : PhaseManager) → is_in_blend_period n p ≡ true → (calculate_blend_factor n p).1 ≡ p
unfolding is_in_blend_period calculate_blend_factor
calculate_blend_factor-keeps n p h = ground (arith, h)

module _ (exp : F64 → F64) where
  get_minting_rate-keeps :
      (n : ℕ) (c : MintingController) → (get_minting_rate exp n c).1.phase_manager ≡ c.phase_manager
  unfolding get_minting_rate calculate_blended_rate
  get_minting_rate-keeps n c = ground (arith, calculate_blend_factor-keeps n c.phase_manager)

  mint_for_block-keeps :
      (n : ℕ) (c : MintingController) → (mint_for_block exp n c).1.phase_manager ≡ c.phase_manager
  unfolding mint_for_block
  mint_for_block-keeps n c =
      bind-keeps (λ (d : MintingController). d.phase_manager ≡ c.phase_manager)
        (get_minting_rate exp n)
        (λ amount. gets (λ (d : MintingController). d.total_minted) >>= λ minted.
          lift (ok_or (checked_add minted amount) overflow_error) >>= λ sum.
          modify (λ (d : MintingController). record d { total_minted = sum }) >> pure amount)
        c (get_minting_rate-keeps n c) (λ amount d h. h)

  calculate_annual_inflation-keeps :
      (n : ℕ) (supply : Amount) (c : MintingController)
      → (calculate_annual_inflation exp n supply c).1.phase_manager ≡ c.phase_manager
  unfolding calculate_annual_inflation
  calculate_annual_inflation-keeps n supply c =
      bind-keeps (λ (d : MintingController). d.phase_manager ≡ c.phase_manager)
        (get_minting_rate exp n) _ c (get_minting_rate-keeps n c) (λ amount d h. h)

-- The public methods that may change the controller, and those of its phase manager, which are
-- reached by `phase_manager_mut`. The clock's reading comes first in a transition.
pub data MintCall : Type 0 where
  mints rates announces blends factors : ℕ → MintCall
  inflates counts : ℕ → ℕ → MintCall
  executes overrides : ℕ → ℕ → UtilityMetrics → MintCall
  sets_index : UtilityIndex → MintCall

-- The call asks neither for the blended rate nor for the blend factor itself, which both end the
-- first phase when they are asked past the blend period.
abbrev pub IsIndirect : MintCall → Type 0
IsIndirect (blends n) = ⊥
IsIndirect (factors n) = ⊥
IsIndirect (mints n) = Unit
IsIndirect (rates n) = Unit
IsIndirect (announces n) = Unit
IsIndirect (inflates n supply) = Unit
IsIndirect (counts transactions addresses) = Unit
IsIndirect (executes now n metrics) = Unit
IsIndirect (overrides now n metrics) = Unit
IsIndirect (sets_index u) = Unit

-- A call of the phase manager.
abbrev on_phases : {A : Type 0} → PhaseExec A → MintingController → MintingController
on_phases m c = record c { phase_manager = (m c.phase_manager).1 }

module _ (exp : F64 → F64) where
  abbrev pub call : MintCall → MintingController → MintingController
  call (mints n) c = (mint_for_block exp n c).1
  call (rates n) c = (get_minting_rate exp n c).1
  call (inflates n supply) c = (calculate_annual_inflation exp n supply c).1
  call (counts transactions addresses) c = record c {
    phase_manager = update_statistics transactions addresses c.phase_manager;
  }
  call (announces n) c = on_phases (announce_transition n) c
  call (executes now n metrics) c = on_phases (execute_transition now n metrics) c
  call (overrides now n metrics) c = on_phases (execute_governance_override now n metrics) c
  call (sets_index u) c = set_utility_index u c
  call (blends n) c = (calculate_blended_rate exp n c).1
  call (factors n) c = record c { phase_manager = (calculate_blend_factor n c.phase_manager).1 }

  abbrev pub calls : List MintCall → MintingController → MintingController
  calls [] c = c
  calls (x ∷ xs) c = calls xs (call x c)

  call-phase :
      (x : MintCall) (c : MintingController)
      → IsIndirect x
      → (call x c).phase_manager.current_phase ≡ c.phase_manager.current_phase
  unfolding update_statistics announce_transition execute_transition execute_governance_override
      set_utility_index
  call-phase (mints n) c i =
      ap (λ (p : PhaseManager). p.current_phase) (mint_for_block-keeps exp n c)
  call-phase (rates n) c i =
      ap (λ (p : PhaseManager). p.current_phase) (get_minting_rate-keeps exp n c)
  call-phase (inflates n supply) c i =
      ap (λ (p : PhaseManager). p.current_phase) (calculate_annual_inflation-keeps exp n supply c)
  call-phase (counts transactions addresses) c i = refl
  call-phase (announces n) c i = ground arith
  call-phase (executes now n metrics) c i = ground arith
  call-phase (overrides now n metrics) c i = ground arith
  call-phase (sets_index u) c i = refl
  call-phase (blends n) c i = absurd i
  call-phase (factors n) c i = absurd i

  calls-phase :
      (xs : List MintCall) (c : MintingController)
      → All IsIndirect xs
      → (calls xs c).phase_manager.current_phase ≡ c.phase_manager.current_phase
  calls-phase [] c i = refl
  calls-phase (x ∷ xs) c (first, rest) = calls-phase xs (call x c) rest ∙ call-phase x c first

  -- After any calls of the methods of a new controller and of its new phase manager, none of which
  -- asks for the blended rate or for the blend factor itself, the current phase is still the first, so
  -- that for every block outside the blend period, also for one after it, the minting rate is the rate
  -- of the first phase and asking for it changes nothing.
  pub stays_in_first_phase :
      (config : MintingConfig) (ivt : IvtConfig) (genesis n : ℕ) (xs : List MintCall)
      → All IsIndirect xs
      → is_in_blend_period n
          (calls xs (new_controller config (new_phases ivt) genesis)).phase_manager
        ≡ false
      → let c = calls xs (new_controller config (new_phases ivt) genesis) in
        (c.phase_manager.current_phase ≡ bootstrap)
        × (get_minting_rate exp n c ≡ (ok (calculate_phase1_rate exp n c), c))
  unfolding get_minting_rate new_controller new_phases
  stays_in_first_phase config ivt genesis n xs indirect h =
      let c = calls xs (new_controller config (new_phases ivt) genesis) in
      let e = calls-phase xs (new_controller config (new_phases ivt) genesis) indirect in
      (e, outside n c h e)
    where
      outside :
          (n : ℕ) (c : MintingController)
          → is_in_blend_period n c.phase_manager ≡ false
          → c.phase_manager.current_phase ≡ bootstrap
          → get_minting_rate exp n c ≡ (ok (calculate_phase1_rate exp n c), c)
      outside n c h e = ground (arith, h, e)
