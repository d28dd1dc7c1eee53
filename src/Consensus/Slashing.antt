-- ===== src/Consensus/Slashing.antt =====
-- crates/consensus/src/slashing.rs: penalties on the stake of a validator.
pub mod Accounts
mod Tests
use kainotes.Prelude.{
  ℕ, zero, suc, ◌+◌, ◌*◌, ◌/◌, ◌%◌, Bool, true, false, Option, none, some, List, [], ◌∷◌, ◌++◌, ltb,
  leb, ◌==◌, if◌then◌else◌, min, filter_by, u64_mod, u32_mod,
}
use kainotes.Prelude.Result.{Result, ok, err, panic, ok_or, unwrap_or}
use kainotes.Prelude.Result.Exec.{Exec, pure, lift, gets, modify, reject_if, ◌>>=◌, ◌>>◌}
use kainotes.Prelude.Float.{F64, of_nat, add, mul, div, to_word}
use kainotes.Prelude.Float.Ops.{fmin, ratio}
use kainotes.Dict.{Dict, lookup, insert}
use kainotes.Core.Types.{Address, Amount, Hash, checked_add, checked_sub, first_digit}
use kainotes.Consensus.Error.{ConsensusError, slashing_error}
use kainotes.Consensus.Validator.{ValidatorInfo, slashed}

pub data SlashingCondition : Type 0 where
  double_signing liquidity_mismanagement governance_attack : SlashingCondition
  extended_downtime : ℕ → SlashingCondition

-- The product of the days is one of 64-bit words.
unfoldable pub base_penalty_rate : SlashingCondition → ℕ
base_penalty_rate double_signing = 500
base_penalty_rate (extended_downtime days) = min ((10 * days) % u64_mod) 10000
base_penalty_rate liquidity_mismanagement = 1000
base_penalty_rate governance_attack = 10000

unfoldable pub severity_multiplier : ℕ → F64
severity_multiplier previous_offenses =
    fmin (add (of_nat 1) (mul (of_nat previous_offenses) (ratio 1 2))) (of_nat 3)

unfoldable pub is_capital_offense : SlashingCondition → Bool
is_capital_offense governance_attack = true
is_capital_offense double_signing = false
is_capital_offense liquidity_mismanagement = false
is_capital_offense (extended_downtime days) = false

pub record SlashingPenalty : Type 0 where
  pub validator : Address
  pub condition : SlashingCondition
  pub amount : Amount
  pub timestamp : ℕ
  pub previous_offenses : ℕ
  pub evidence_hash : Option Hash

pub record SlashingDistribution : Type 0 where
  pub burn : Amount
  pub insurance : Amount
  pub whistleblower : Amount

unfoldable pub from_slashed_amount : Amount → SlashingDistribution
from_slashed_amount total = record {
  burn = (total * 50) / 100;
  insurance = (total * 30) / 100;
  whistleblower = (total * 20) / 100;
}

pub record SlashingManager : Type 0 where
  pub slashing_history : List SlashingPenalty
  pub offense_count : Dict ℕ
  pub insurance_fund : Amount
  pub total_slashed : Amount
  pub total_burned : Amount

-- `SlashingManager::new`
unfoldable pub new_slashing : SlashingManager
new_slashing = record {
  slashing_history = [];
  offense_count = [];
  insurance_fund = 0;
  total_slashed = 0;
  total_burned = 0;
}

unfoldable pub get_offense_count : Address → SlashingManager → ℕ
get_offense_count address m = unwrap_or 0 (lookup address m.offense_count)

unfoldable pub calculate_slash_amount : ValidatorInfo → SlashingCondition → SlashingManager → Amount
unfolding get_offense_count base_penalty_rate severity_multiplier
calculate_slash_amount v condition m =
    let multiplier = severity_multiplier (get_offense_count v.address m) in
    let stake = first_digit v.stake in
    let base_slash =
      to_word u64_mod
        (div (mul (of_nat stake) (of_nat (base_penalty_rate condition))) (of_nat 10000)) in
    min (to_word u64_mod (mul (of_nat base_slash) multiplier)) stake

-- A slashing changes the manager and the validator that it is given.
abbrev pub SlashExec : Type 0 → Type 0
SlashExec = Exec ConsensusError (SlashingManager × ValidatorInfo)

-- `+= 1` of the count of offenses, which wraps
abbrev raise_count : Address → Dict ℕ → Dict ℕ
raise_count address d = insert address ((unwrap_or 0 (lookup address d) + 1) % u32_mod) d

abbrev pub change : (SlashingManager → SlashingManager) → SlashExec Unit
change f = modify λ (s : SlashingManager × ValidatorInfo). (f s.0, s.1)

unfoldable pub slash_validator : ℕ → SlashingCondition → Option Hash → SlashExec SlashingPenalty
unfolding get_offense_count from_slashed_amount is_capital_offense
slash_validator now condition evidence_hash = do
  amount ← gets λ (s : SlashingManager × ValidatorInfo). calculate_slash_amount s.1 condition s.0
  v ← gets λ (s : SlashingManager × ValidatorInfo). s.1
  reject_if (ltb v.stake amount) slashing_error
  previous_offenses ← gets λ (s : SlashingManager × ValidatorInfo). get_offense_count v.address s.0
  let penalty : SlashingPenalty = record {
    validator = v.address;
    condition = condition;
    amount = amount;
    timestamp = now;
    previous_offenses = previous_offenses;
    evidence_hash = evidence_hash;
  }
  stake ← lift (ok_or (checked_sub v.stake amount) slashing_error)
  modify λ (s : SlashingManager × ValidatorInfo). (s.0, record s.1 { stake = stake })
  let distribution = from_slashed_amount amount
  m ← gets λ (s : SlashingManager × ValidatorInfo). s.0
  fund ← lift (ok_or (checked_add m.insurance_fund distribution.insurance) slashing_error)
  change λ (m : SlashingManager). record m { insurance_fund = fund }
  total ← lift (ok_or (checked_add m.total_slashed amount) slashing_error)
  change λ (m : SlashingManager). record m { total_slashed = total }
  burned ← lift (ok_or (checked_add m.total_burned distribution.burn) slashing_error)
  change λ (m : SlashingManager). record m {
    total_burned = burned;
    offense_count = raise_count v.address m.offense_count;
    slashing_history = m.slashing_history ++ (penalty ∷ []);
  }
  modify λ (s : SlashingManager × ValidatorInfo).
      (s.0, if is_capital_offense condition then record s.1 { status = slashed } else s.1)
  pure penalty

unfoldable pub get_validator_history : Address → SlashingManager → List SlashingPenalty
get_validator_history address m =
    filter_by (λ (p : SlashingPenalty). p.validator == address) m.slashing_history

-- What a validator is slashed for, when its missed blocks are too many.
unfoldable pub downtime : ℕ → ValidatorInfo → Option SlashingCondition
downtime max_downtime_blocks v =
    let total_blocks = (v.blocks_produced + v.blocks_missed) % u64_mod in
    let days_down = v.blocks_missed / 28800 in
    if total_blocks == 0
    then none
    else if leb max_downtime_blocks v.blocks_missed
    then (if ltb 0 days_down then some (extended_downtime days_down) else none)
    else none

abbrev slash_if : ℕ → Option SlashingCondition → SlashExec (Option SlashingPenalty)
slash_if now none = pure none
slash_if now (some condition) = do penalty ← slash_validator now condition none; pure (some penalty)

unfoldable pub check_downtime_slashing : ℕ → ℕ → SlashExec (Option SlashingPenalty)
unfolding downtime
check_downtime_slashing now max_downtime_blocks = do
  condition ← gets λ (s : SlashingManager × ValidatorInfo). downtime max_downtime_blocks s.1
  slash_if now condition

unfoldable pub withdraw_insurance : Amount → Exec ConsensusError SlashingManager Unit
withdraw_insurance amount = do
  fund ← gets λ (m : SlashingManager). m.insurance_fund
  rest ← lift (ok_or (checked_sub fund amount) slashing_error)
  modify λ (m : SlashingManager). record m { insurance_fund = rest }
