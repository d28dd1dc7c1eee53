-- ===== src/Tokenomics/Minting.antt =====
-- crates/tokenomics/src/minting.rs: how much is minted for a block. The exponential of `f64` is a
-- function of the platform: an argument.
pub mod Stuck
mod Tests
use kainotes.Prelude.{ℕ, ◌+◌, ◌-◌, ◌*◌, ◌/◌, Bool, Option, none, some, if◌then◌else◌, u64_mod}
use kainotes.Prelude.Result.{Result, ok, err, panic, ok_or}
use kainotes.Prelude.Result.Exec.{Exec, pure, lift, gets, modify, ◌>>=◌, ◌>>◌}
use kainotes.Prelude.Float.{F64, of_nat, add, sub, mul, div, negate, to_word}
use kainotes.Prelude.Float.Ops.{ratio}
use kainotes.Core.Types.{Amount, checked_add, first_digit, first_digit_or}
use kainotes.Tokenomics.Error.{TokenomicsError, minting_error, overflow_error}
use kainotes.Tokenomics.Utility.{UtilityIndex, index_value}
use kainotes.Tokenomics.Phase.{
  MintingPhase, bootstrap, utility_driven, PhaseManager, calculate_blend_factor, is_in_blend_period,
}

pub record MintingConfig : Type 0 where
  pub base_rate : Amount
  pub bootstrap_multiplier : F64
  pub decay_constant : F64
  pub min_rate : Amount
  pub max_rate : Amount
  pub sensitivity : F64

-- `MintingConfig::default`
unfoldable pub default_minting : MintingConfig
default_minting = record {
  base_rate = 1000;
  bootstrap_multiplier = of_nat 2;
  decay_constant = ratio 1 10000;
  min_rate = 100;
  max_rate = 2000;
  sensitivity = of_nat 2;
}

pub record MintingController : Type 0 where
  pub config : MintingConfig
  pub phase_manager : PhaseManager
  pub utility_index : Option UtilityIndex
  pub genesis_block : ℕ
  pub total_minted : Amount

abbrev pub MintExec : Type 0 → Type 0
MintExec = Exec TokenomicsError MintingController

-- `MintingController::new`
unfoldable pub new_controller : MintingConfig → PhaseManager → ℕ → MintingController
new_controller config phase_manager genesis_block = record {
  config = config;
  phase_manager = phase_manager;
  utility_index = none;
  genesis_block = genesis_block;
  total_minted = 0;
}

unfoldable pub set_utility_index : UtilityIndex → MintingController → MintingController
set_utility_index utility_index c = record c { utility_index = some utility_index }

-- A call of the phase manager that may change it.
abbrev pub blend_factor : ℕ → MintExec F64
blend_factor block_number c =
    let (factor, p) = calculate_blend_factor block_number c.phase_manager in
    (ok factor, record c { phase_manager = p })

module _ (exp : F64 → F64) where
  unfoldable pub calculate_phase1_rate : ℕ → MintingController → Amount
  calculate_phase1_rate block_number c =
      let t = of_nat (block_number - c.genesis_block) in
      let decay = exp (mul (negate c.config.decay_constant) t) in
      let multiplier = add (of_nat 1) (mul c.config.bootstrap_multiplier decay) in
      to_word u64_mod (mul (of_nat (first_digit c.config.base_rate)) multiplier)

  unfoldable pub sigmoid : F64 → MintingController → F64
  sigmoid x c = div (of_nat 1) (add (of_nat 1) (exp (mul (negate c.config.sensitivity) x)))

  unfoldable pub calculate_phase2_rate : MintingController → Result TokenomicsError Amount
  unfolding index_value sigmoid
  calculate_phase2_rate c = elim c.utility_index [
    | none ↦ err minting_error
    | some u ↦
        let sigmoid_value = sigmoid (sub (index_value u) (of_nat 1)) c in
        let low = of_nat (first_digit c.config.min_rate) in
        let high = of_nat (first_digit c.config.max_rate) in
        ok (to_word u64_mod (add low (mul (sub high low) sigmoid_value)))
  ]

  unfoldable pub calculate_blended_rate : ℕ → MintExec Amount
  unfolding calculate_phase1_rate calculate_phase2_rate calculate_blend_factor
  calculate_blended_rate block_number = do
    factor ← blend_factor block_number
    phase1_rate ← gets (calculate_phase1_rate block_number)
    rate2 ← gets calculate_phase2_rate
    phase2_rate ← lift rate2
    let blended =
        add (mul (of_nat (first_digit phase1_rate)) factor)
          (mul (of_nat (first_digit phase2_rate)) (sub (of_nat 1) factor))
    pure (to_word u64_mod blended)

  -- The rate of the current phase.
  abbrev pub phase_rate : ℕ → MintingPhase → MintingController → Result TokenomicsError Amount
  phase_rate block_number bootstrap c = ok (calculate_phase1_rate block_number c)
  phase_rate block_number utility_driven c = calculate_phase2_rate c

  unfoldable pub get_minting_rate : ℕ → MintExec Amount
  unfolding is_in_blend_period calculate_blended_rate
  get_minting_rate block_number c =
      if is_in_blend_period block_number c.phase_manager
      then calculate_blended_rate block_number c
      else (phase_rate block_number c.phase_manager.current_phase c, c)

  unfoldable pub mint_for_block : ℕ → MintExec Amount
  unfolding get_minting_rate
  mint_for_block block_number = do
    amount ← get_minting_rate block_number
    minted ← gets λ (c : MintingController). c.total_minted
    sum ← lift (ok_or (checked_add minted amount) overflow_error)
    modify λ (c : MintingController). record c { total_minted = sum }
    pure amount

  unfoldable pub calculate_annual_inflation : ℕ → Amount → MintExec F64
  unfolding get_minting_rate
  calculate_annual_inflation block_number total_supply = do
    rate_per_block ← get_minting_rate block_number
    let annual = mul (of_nat (first_digit rate_per_block)) (of_nat ((365 * 24 * 60 * 60) / 3))
    pure (mul (div annual (of_nat (first_digit_or 1 total_supply))) (of_nat 100))
