-- ===== src/Contracts/Gas.antt =====
-- crates/smart-contracts/src/gas.rs: the prices of operations, and the meter of one execution. Gas is
-- a 64-bit word, and sums and products wrap around.
pub mod Memory
pub mod Meter
mod Tests
use kainotes.Prelude.{
  ℕ, ◌+◌, ◌-◌, ◌*◌, ◌/◌, ◌%◌, Bool, true, false, not, ◌&&◌, List, [], ◌∷◌, ltb, leb, ◌==◌,
  if◌then◌else◌, min, u64_mod,
}
use kainotes.Prelude.Result.{Result, ok, err, panic}
use kainotes.Prelude.Result.Exec.{Exec, gets, modify, reject_if, ◌>>=◌, ◌>>◌}
use kainotes.Core.Types.{Bytes}

-- `ContractError` of crates/smart-contracts/src/lib.rs, without the texts
pub data ContractError : Type 0 where
  execution_error out_of_gas contract_not_found invalid_bytecode : ContractError
  deployment_failed revert state_error gas_error precompile_error : ContractError

pub record GasConfig : Type 0 where
  pub tx_gas : ℕ
  pub tx_data_zero_gas : ℕ
  pub tx_data_non_zero_gas : ℕ
  pub tx_create_gas : ℕ
  pub sstore_set_gas : ℕ
  pub sstore_reset_gas : ℕ
  pub sstore_clears_schedule : ℕ
  pub sload_gas : ℕ
  pub call_gas : ℕ
  pub create_gas : ℕ
  pub memory_gas : ℕ
  pub log_gas : ℕ
  pub log_topic_gas : ℕ
  pub log_data_gas : ℕ
  pub keccak256_gas : ℕ
  pub keccak256_word_gas : ℕ

-- `GasConfig::mainnet`, which is also the default
abbrev pub mainnet : GasConfig
mainnet = record {
  tx_gas = 21000;
  tx_data_zero_gas = 4;
  tx_data_non_zero_gas = 16;
  tx_create_gas = 32000;
  sstore_set_gas = 20000;
  sstore_reset_gas = 5000;
  sstore_clears_schedule = 15000;
  sload_gas = 800;
  call_gas = 700;
  create_gas = 32000;
  memory_gas = 3;
  log_gas = 375;
  log_topic_gas = 375;
  log_data_gas = 8;
  keccak256_gas = 30;
  keccak256_word_gas = 6;
}

-- `GasConfig::test`
abbrev pub testing : GasConfig
testing = record {
  tx_gas = 21000;
  tx_data_zero_gas = 4;
  tx_data_non_zero_gas = 16;
  tx_create_gas = 10000;
  sstore_set_gas = 5000;
  sstore_reset_gas = 2500;
  sstore_clears_schedule = 5000;
  sload_gas = 200;
  call_gas = 100;
  create_gas = 10000;
  memory_gas = 1;
  log_gas = 100;
  log_topic_gas = 100;
  log_data_gas = 2;
  keccak256_gas = 10;
  keccak256_word_gas = 2;
}

-- a sum and a product of words
abbrev pub add64 : ℕ → ℕ → ℕ
add64 a b = (a + b) % u64_mod

abbrev pub mul64 : ℕ → ℕ → ℕ
mul64 a b = (a * b) % u64_mod

-- a difference of words
abbrev pub sub64 : ℕ → ℕ → ℕ
sub64 a b = (a + u64_mod - b) % u64_mod

-- all bytes of a 32-byte value are zero
abbrev pub is_zero_word : Bytes → Bool
is_zero_word [] = true
is_zero_word (b ∷ bs) = b == 0 && is_zero_word bs

abbrev pub same_bytes : Bytes → Bytes → Bool
same_bytes [] [] = true
same_bytes [] (b ∷ ys) = false
same_bytes (a ∷ xs) [] = false
same_bytes (a ∷ xs) (b ∷ ys) = a == b && same_bytes xs ys

-- `GasCalculator`, by its configuration
module _ (config : GasConfig) where
  -- the loop of `calculate_tx_data_gas`
  unfoldable pub data_gas : ℕ → Bytes → ℕ
  data_gas gas [] = gas
  data_gas gas (b ∷ bs) =
      data_gas
        (if b == 0
          then add64 gas config.tx_data_zero_gas
          else add64 gas config.tx_data_non_zero_gas)
        bs

  unfoldable pub calculate_tx_data_gas : Bytes → ℕ
  unfolding data_gas
  calculate_tx_data_gas bytes = data_gas 0 bytes

  unfoldable pub calculate_base_tx_gas : Bool → Bytes → ℕ
  unfolding calculate_tx_data_gas
  calculate_base_tx_gas is_create bytes =
      add64 (if is_create then add64 config.tx_gas config.tx_create_gas else config.tx_gas)
        (calculate_tx_data_gas bytes)

  unfoldable pub calculate_memory_gas : ℕ → ℕ → ℕ
  calculate_memory_gas current_size new_size =
      let new_words = add64 new_size 31 / 32 in
      let current_words = add64 current_size 31 / 32 in
      let linear_cost = mul64 (sub64 new_words current_words) config.memory_gas in
      let quadratic_cost = mul64 new_words new_words / 512 in
      let current_quadratic = mul64 current_words current_words / 512 in
      if leb new_size current_size
      then 0
      else sub64 (add64 linear_cost quadratic_cost) current_quadratic

  -- the gas and the refund
  unfoldable pub calculate_sstore_gas : Bytes → Bytes → ℕ × ℕ
  calculate_sstore_gas current new = elim (is_zero_word current) [
    | true ↦ elim (is_zero_word new) [
      | true ↦ (config.sload_gas, 0)
      | false ↦ (config.sstore_set_gas, 0)
    ]
    | false ↦ elim (is_zero_word new) [
      | true ↦ (config.sstore_reset_gas, config.sstore_clears_schedule)
      | false ↦
          if not (same_bytes current new)
          then (config.sstore_reset_gas, 0)
          else (config.sload_gas, 0)
    ]
  ]

  unfoldable pub calculate_log_gas : ℕ → ℕ → ℕ
  calculate_log_gas topics data_len =
      add64 (add64 config.log_gas (mul64 topics config.log_topic_gas))
        (mul64 data_len config.log_data_gas)

  unfoldable pub calculate_keccak256_gas : ℕ → ℕ
  calculate_keccak256_gas data_len =
      add64 config.keccak256_gas (mul64 (add64 data_len 31 / 32) config.keccak256_word_gas)

  unfoldable pub calculate_call_gas : Bool → Bool → ℕ
  calculate_call_gas value_transfer account_exists =
      if value_transfer
      then (let stipend = add64 config.call_gas 9000 in
          if not account_exists then add64 stipend 25000 else stipend)
      else config.call_gas

  unfoldable pub calculate_create_gas : ℕ → ℕ
  calculate_create_gas code_size = add64 config.create_gas (mul64 code_size 200)

pub record GasMeter : Type 0 where
  pub limit : ℕ
  pub used : ℕ
  pub refunded : ℕ

abbrev pub MeterExec : Type 0 → Type 0
MeterExec = Exec ContractError GasMeter

-- `GasMeter::new`
unfoldable pub new : ℕ → GasMeter
new limit = record { limit = limit; used = 0; refunded = 0 }

unfoldable pub consume : ℕ → MeterExec Unit
consume amount = do
  over ← gets λ (m : GasMeter). ltb m.limit (add64 m.used amount)
  reject_if over out_of_gas
  modify λ (m : GasMeter). record m { used = add64 m.used amount }

unfoldable pub refund : ℕ → GasMeter → GasMeter
refund amount m = record m { refunded = add64 m.refunded amount }

unfoldable pub remaining : GasMeter → ℕ
remaining m = m.limit - m.used

unfoldable pub finalize : GasMeter → ℕ
finalize m = m.used - min m.refunded (m.used / 2)

unfoldable pub is_out_of_gas : GasMeter → Bool
is_out_of_gas m = leb m.limit m.used
