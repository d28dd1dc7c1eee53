-- ===== src/Tokenomics/Phase.antt =====
-- crates/tokenomics/src/phase_manager.rs: the way from the first phase of minting to the second.
use kainotes.Prelude.{
  ℕ, ◌+◌, ◌-◌, ◌%◌, Bool, true, false, not, ◌||◌, Option, none, some, ltb, leb, if◌then◌else◌,
  u64_mod,
}
use kainotes.Prelude.Result.Exec.{Exec, pure, gets, modify, reject_if, ◌>>=◌, ◌>>◌}
use kainotes.Prelude.Float.{F64, of_nat, sub, mul, div}
use kainotes.Prelude.Float.Ops.{fmin}
use kainotes.Tokenomics.Error.{TokenomicsError, phase_transition_error}
use kainotes.Tokenomics.Utility.{UtilityMetrics, UtilityIndex, with_baseline}

-- `MintingPhase` of minting.rs
pub data MintingPhase : Type 0 where
  bootstrap utility_driven : MintingPhase

abbrev pub is_bootstrap : MintingPhase → Bool
is_bootstrap bootstrap = true
is_bootstrap utility_driven = false

pub record IvtConfig : Type 0 where
  pub target_transactions : ℕ
  pub target_addresses : ℕ
  pub allow_governance_override : Bool

-- `IVTConfig::default`
unfoldable pub default_ivt : IvtConfig
default_ivt = record {
  target_transactions = 1000000;
  target_addresses = 100000;
  allow_governance_override = true;
}

unfoldable pub is_reached : ℕ → ℕ → IvtConfig → Bool
is_reached cumulative_tx unique_addresses c =
    leb c.target_transactions cumulative_tx || leb c.target_addresses unique_addresses

pub record PhaseTransition : Type 0 where
  pub block_number : ℕ
  pub timestamp : ℕ
  pub metrics : UtilityMetrics
  pub governance_override : Bool

pub record PhaseManager : Type 0 where
  pub current_phase : MintingPhase
  pub ivt_config : IvtConfig
  pub cumulative_transactions : ℕ
  pub unique_addresses : ℕ
  pub transition : Option PhaseTransition
  pub notice_period_blocks : ℕ
  pub notice_block : Option ℕ
  pub blend_period_blocks : ℕ
  pub transition_start_block : Option ℕ

abbrev pub PhaseExec : Type 0 → Type 0
PhaseExec = Exec TokenomicsError PhaseManager

-- `PhaseManager::new`
unfoldable pub new_phases : IvtConfig → PhaseManager
new_phases ivt_config = record {
  current_phase = bootstrap;
  ivt_config = ivt_config;
  cumulative_transactions = 0;
  unique_addresses = 0;
  transition = none;
  notice_period_blocks = 201600;
  notice_block = none;
  blend_period_blocks = 864000;
  transition_start_block = none;
}

unfoldable pub update_statistics : ℕ → ℕ → PhaseManager → PhaseManager
update_statistics transactions addresses p = record p {
  cumulative_transactions = (p.cumulative_transactions + transactions) % u64_mod;
  unique_addresses = if ltb p.unique_addresses addresses then addresses else p.unique_addresses;
}

unfoldable pub is_ivt_reached : PhaseManager → Bool
unfolding is_reached
is_ivt_reached p = is_reached p.cumulative_transactions p.unique_addresses p.ivt_config

unfoldable pub announce_transition : ℕ → PhaseExec Unit
unfolding is_ivt_reached
announce_transition current_block = do
  phase ← gets λ (p : PhaseManager). p.current_phase
  reject_if (not (is_bootstrap phase)) phase_transition_error
  reached ← gets is_ivt_reached
  reject_if (not reached) phase_transition_error
  modify λ (p : PhaseManager). record p { notice_block = some current_block }

-- Whether the notice was given, and its period is over.
abbrev pub notice_over : ℕ → PhaseManager → Bool
notice_over current_block p = elim p.notice_block [
  | none ↦ false
  | some n ↦ leb ((n + p.notice_period_blocks) % u64_mod) current_block
]

-- What both transitions note.
abbrev start_transition : ℕ → ℕ → UtilityMetrics → Bool → PhaseManager → PhaseManager
start_transition now current_block metrics governance_override p = record p {
  transition_start_block = some current_block;
  transition = some (record {
    block_number = current_block;
    timestamp = now;
    metrics = metrics;
    governance_override = governance_override;
  });
}

unfoldable pub execute_transition : ℕ → ℕ → UtilityMetrics → PhaseExec UtilityIndex
unfolding with_baseline
execute_transition now current_block metrics = do
  over ← gets (notice_over current_block)
  reject_if (not over) phase_transition_error
  modify (start_transition now current_block metrics false)
  pure (with_baseline metrics)

unfoldable pub execute_governance_override : ℕ → ℕ → UtilityMetrics → PhaseExec UtilityIndex
unfolding with_baseline
execute_governance_override now current_block metrics = do
  allowed ← gets λ (p : PhaseManager). p.ivt_config.allow_governance_override
  reject_if (not allowed) phase_transition_error
  phase ← gets λ (p : PhaseManager). p.current_phase
  reject_if (not (is_bootstrap phase)) phase_transition_error
  modify (start_transition now current_block metrics true)
  pure (with_baseline metrics)

unfoldable pub calculate_blend_factor : ℕ → PhaseManager → F64 × PhaseManager
calculate_blend_factor current_block p = elim p.transition_start_block [
  | none ↦ (of_nat 1, p)
  | some start_block ↦
      let since = current_block - start_block in
      let progress = div (of_nat since) (of_nat p.blend_period_blocks) in
      if ltb current_block start_block
      then (of_nat 1, p)
      else if leb p.blend_period_blocks since
      then (of_nat 0, record p { current_phase = utility_driven })
      else (sub (of_nat 1) progress, p)
]

unfoldable pub is_in_blend_period : ℕ → PhaseManager → Bool
is_in_blend_period current_block p = elim p.transition_start_block [
  | none ↦ false
  | some start_block ↦ ltb (current_block - start_block) p.blend_period_blocks
]

pub record PhaseProgress : Type 0 where
  pub current_phase : MintingPhase
  pub cumulative_transactions : ℕ
  pub target_transactions : ℕ
  pub unique_addresses : ℕ
  pub target_addresses : ℕ
  pub tx_progress_percent : F64
  pub address_progress_percent : F64
  pub is_ivt_reached : Bool
  pub notice_block : Option ℕ
  pub transition_start_block : Option ℕ

abbrev percent_of : ℕ → ℕ → F64
percent_of n target =
    if ltb 0 target
    then fmin (mul (div (of_nat n) (of_nat target)) (of_nat 100)) (of_nat 100)
    else of_nat 0

unfoldable pub get_progress : PhaseManager → PhaseProgress
unfolding is_ivt_reached
get_progress p = record {
  current_phase = p.current_phase;
  cumulative_transactions = p.cumulative_transactions;
  target_transactions = p.ivt_config.target_transactions;
  unique_addresses = p.unique_addresses;
  target_addresses = p.ivt_config.target_addresses;
  tx_progress_percent = percent_of p.cumulative_transactions p.ivt_config.target_transactions;
  address_progress_percent = percent_of p.unique_addresses p.ivt_config.target_addresses;
  is_ivt_reached = is_ivt_reached p;
  notice_block = p.notice_block;
  transition_start_block = p.transition_start_block;
}
