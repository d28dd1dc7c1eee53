-- ===== src/Consensus/Validator.antt =====
-- crates/consensus/src/validator.rs: a validator and the set of validators. The clock's reading is
-- an argument of the methods that take one.
pub mod Registry
mod Tests
use kainotes.Prelude.{
  ℕ, zero, suc, ◌+◌, ◌*◌, ◌/◌, ◌%◌, Bool, true, false, not, ◌&&◌, Option, none, some, List, [], ◌∷◌,
  map, length, ltb, leb, ◌==◌, if◌then◌else◌, min, filter_by, sum_of, u64_mod, u16_mod,
}
use kainotes.Prelude.Result.{Result, ok, err, panic, ok_or, unwrap_or}
use kainotes.Prelude.Result.Exec.{Exec, pure, lift, gets, modify, reject_if, ◌>>=◌, ◌>>◌}
use kainotes.Prelude.Float.{F64, of_nat, mul, div, to_word}
use kainotes.Dict.{Dict, lookup, insert, remove, contains, values}
use kainotes.Core.Types.{Address, Amount, is_zero, checked_add, checked_sub, first_digit}
use kainotes.Consensus.Error.{
  ConsensusError, validator_error, insufficient_stake, validator_not_found,
  validator_already_exists,
}

pub data ValidatorStatus : Type 0 where
  active inactive slashed exited : ValidatorStatus
  unbonding : ℕ → ValidatorStatus

-- The uptime and the commission are in hundredths of a percent, in 16 bits.
pub record ValidatorInfo : Type 0 where
  pub address : Address
  pub stake : Amount
  pub liquidity_deployed : Amount
  pub utility_score : ℕ
  pub status : ValidatorStatus
  pub uptime : ℕ
  pub blocks_produced : ℕ
  pub blocks_missed : ℕ
  pub registered_at : ℕ
  pub last_active : ℕ
  pub commission_rate : ℕ

abbrev pub ValidatorExec : Type 0 → Type 0
ValidatorExec = Exec ConsensusError ValidatorInfo

-- `ValidatorInfo::new`
unfoldable pub new_validator : ℕ → Address → Amount → ℕ → ValidatorInfo
new_validator now address stake commission_rate = record {
  address = address;
  stake = stake;
  liquidity_deployed = 0;
  utility_score = 0;
  status = active;
  uptime = 10000;
  blocks_produced = 0;
  blocks_missed = 0;
  registered_at = now;
  last_active = now;
  commission_rate = min commission_rate 10000;
}

abbrev pub is_active_status : ValidatorStatus → Bool
is_active_status active = true
is_active_status inactive = false
is_active_status slashed = false
is_active_status exited = false
is_active_status (unbonding t) = false

-- `ValidatorInfo::is_active`
unfoldable pub is_active : ValidatorInfo → Bool
is_active v = is_active_status v.status

unfoldable pub can_produce_blocks : ValidatorInfo → Bool
unfolding is_active
can_produce_blocks v = is_active v && not (is_zero v.stake)

-- The share of the blocks that were produced.
unfoldable pub uptime_of : ℕ → ℕ → ℕ
uptime_of produced total =
    to_word u16_mod (mul (div (of_nat produced) (of_nat total)) (of_nat 10000))

unfoldable pub update_uptime : ℕ → Bool → ValidatorInfo → ValidatorInfo
unfolding uptime_of
update_uptime now produced v =
    let w =
      (if produced
        then record v { blocks_produced = (v.blocks_produced + 1) % u64_mod }
        else record v { blocks_missed = (v.blocks_missed + 1) % u64_mod }) in
    let total = (w.blocks_produced + w.blocks_missed) % u64_mod in
    record w {
      uptime = if ltb 0 total then uptime_of w.blocks_produced total else w.uptime;
      last_active = now;
    }

unfoldable pub reliability_factor : ValidatorInfo → F64
reliability_factor v = div (of_nat v.uptime) (of_nat 10000)

unfoldable pub efficiency_score : ValidatorInfo → F64
efficiency_score v =
    if is_zero v.stake
    then of_nat 0
    else div (of_nat (first_digit ((v.liquidity_deployed * 10000) / v.stake))) (of_nat 10000)

unfoldable pub add_stake : Amount → ValidatorExec Unit
add_stake amount = do
  stake ← gets λ (v : ValidatorInfo). v.stake
  sum ← lift (ok_or (checked_add stake amount) validator_error)
  modify λ (v : ValidatorInfo). record v { stake = sum }

unfoldable pub remove_stake : ℕ → Amount → ℕ → ValidatorExec Unit
remove_stake now amount unbonding_period = do
  stake ← gets λ (v : ValidatorInfo). v.stake
  reject_if (ltb stake amount) (insufficient_stake (first_digit amount) (first_digit stake))
  rest ← lift (ok_or (checked_sub stake amount) validator_error)
  modify λ (v : ValidatorInfo). record v {
    stake = rest;
    status = unbonding ((now + unbonding_period) % u64_mod);
  }

unfoldable pub deploy_liquidity : Amount → ValidatorExec Unit
deploy_liquidity amount = do
  stake ← gets λ (v : ValidatorInfo). v.stake
  reject_if (ltb stake amount) validator_error
  old ← gets λ (v : ValidatorInfo). v.liquidity_deployed
  sum ← lift (ok_or (checked_add old amount) validator_error)
  modify λ (v : ValidatorInfo). record v { liquidity_deployed = sum }

unfoldable pub withdraw_liquidity : Amount → ValidatorExec Unit
withdraw_liquidity amount = do
  old ← gets λ (v : ValidatorInfo). v.liquidity_deployed
  rest ← lift (ok_or (checked_sub old amount) validator_error)
  modify λ (v : ValidatorInfo). record v { liquidity_deployed = rest }

pub record ValidatorSet : Type 0 where
  pub validators : Dict ValidatorInfo
  pub min_stake : Amount
  pub unbonding_period : ℕ

abbrev pub SetExec : Type 0 → Type 0
SetExec = Exec ConsensusError ValidatorSet

-- `ValidatorSet::new`
unfoldable pub new_set : Amount → ℕ → ValidatorSet
new_set min_stake unbonding_period = record {
  validators = [];
  min_stake = min_stake;
  unbonding_period = unbonding_period;
}

-- `ValidatorSet::get`
unfoldable pub get_validator : Address → ValidatorSet → Option ValidatorInfo
get_validator address s = lookup address s.validators

abbrev pub put_validator : Address → ValidatorInfo → ValidatorSet → ValidatorSet
put_validator address v s = record s { validators = insert address v s.validators }

unfoldable pub register : ℕ → Address → Amount → ℕ → SetExec Unit
unfolding contains new_validator
register now address stake commission_rate = do
  exists ← gets λ (s : ValidatorSet). contains address s.validators
  reject_if exists (validator_already_exists address)
  min_stake ← gets λ (s : ValidatorSet). s.min_stake
  reject_if (ltb stake min_stake) (insufficient_stake (first_digit min_stake) (first_digit stake))
  modify (put_validator address (new_validator now address stake commission_rate))

unfoldable pub unregister : Address → SetExec ValidatorInfo
unregister address = do
  found ← gets λ (s : ValidatorSet). lookup address s.validators
  v ← lift (ok_or found (validator_not_found address))
  modify λ (s : ValidatorSet). record s { validators = remove address s.validators }
  pure (record v { status = exited })

unfoldable pub active_validators : ValidatorSet → List ValidatorInfo
unfolding is_active
active_validators s = filter_by is_active (values s.validators)

unfoldable pub all_validators : ValidatorSet → List ValidatorInfo
all_validators s = values s.validators

-- The sums never overflow.
unfoldable pub total_stake : ValidatorSet → Amount
total_stake s = sum_of (λ (v : ValidatorInfo). v.stake) (values s.validators)

unfoldable pub total_liquidity_deployed : ValidatorSet → Amount
total_liquidity_deployed s =
    sum_of (λ (v : ValidatorInfo). v.liquidity_deployed) (values s.validators)

unfoldable pub update_status : Address → ValidatorStatus → SetExec Unit
update_status address status = do
  found ← gets λ (s : ValidatorSet). lookup address s.validators
  v ← lift (ok_or found (validator_not_found address))
  modify (put_validator address (record v { status = status }))

-- Whether an unbonding has run out.
abbrev pub is_due : ℕ → ValidatorStatus → Bool
is_due current_time (unbonding unlock_time) = leb unlock_time current_time
is_due current_time active = false
is_due current_time inactive = false
is_due current_time slashed = false
is_due current_time exited = false

-- The loop of `process_unbonding`.
unfoldable pub release_all : ℕ → Dict ValidatorInfo → List Address × Dict ValidatorInfo
release_all current_time [] = ([], [])
release_all current_time ((k, v) ∷ d) =
    let (completed, e) = release_all current_time d in
    if is_due current_time v.status
    then (k ∷ completed, (k, record v { status = inactive }) ∷ e)
    else (completed, (k, v) ∷ e)

unfoldable pub process_unbonding : ℕ → ValidatorSet → List Address × ValidatorSet
unfolding release_all
process_unbonding current_time s =
    let (completed, d) = release_all current_time s.validators in
    (completed, record s { validators = d })

-- `ValidatorSet::count`
unfoldable pub validator_count : ValidatorSet → ℕ
validator_count s = length s.validators

unfoldable pub active_count : ValidatorSet → ℕ
unfolding active_validators
active_count s = length (active_validators s)
