-- ===== src/Tokenomics/Error.antt =====
-- crates/tokenomics/src/lib.rs: the errors, without their messages.
pub data TokenomicsError : Type 0 where
  minting_error phase_transition_error utility_calculation_error : TokenomicsError
  reward_distribution_error burning_error invalid_configuration overflow_error : TokenomicsError
