-- ===== src/Tokenomics/Burning.antt =====
-- crates/tokenomics/src/burning.rs: what is burned, by cause, and the history of it.
pub mod Totals
mod Tests
use kainotes.Prelude.{
  ℕ, ◌+◌, ◌*◌, Bool, true, false, not, Option, none, some, List, [], ◌∷◌, ◌++◌, ltb, ◌==◌,
  if◌then◌else◌, u64_mod,
}
use kainotes.Prelude.Result.{Result, ok, err, panic, ok_or}
use kainotes.Prelude.Result.Exec.{Exec, pure, lift, gets, modify, ◌>>=◌, ◌>>◌}
use kainotes.Prelude.Float.{F64, of_nat, sub, mul, div, to_word}
use kainotes.Prelude.Float.Ops.{fmin, at_most, ratio}
use kainotes.Core.Types.{Address, Amount, Hash, is_zero, checked_add, first_digit, first_digit_or}
use kainotes.Core.Transaction.{Transaction, calculate_fee}
use kainotes.Core.Host.{Host}
use kainotes.Core.Block.{transaction_hash}
use kainotes.Tokenomics.Error.{TokenomicsError, overflow_error}

pub record BurnConfig : Type 0 where
  pub fee_burn_rate : ℕ
  pub utility_target : F64
  pub enable_excess_burn : Bool

-- `BurnConfig::default`
unfoldable pub default_burn : BurnConfig
default_burn = record {
  fee_burn_rate = 3000;
  utility_target = ratio 3 2;
  enable_excess_burn = true;
}

pub data BurnType : Type 0 where
  transaction_fee : Hash → Amount → BurnType
  excess_utility : F64 → Amount → BurnType
  slashing : Address → Amount → BurnType
  buy_back : Amount → BurnType

pub record BurnRecord : Type 0 where
  pub burn_type : BurnType
  pub block_number : ℕ
  pub timestamp : ℕ

pub record BurningMechanism : Type 0 where
  pub config : BurnConfig
  pub total_burned : Amount
  pub history : List BurnRecord
  pub fee_burns : Amount
  pub excess_burns : Amount
  pub slashing_burns : Amount
  pub buyback_burns : Amount

abbrev pub BurnExec : Type 0 → Type 0
BurnExec = Exec TokenomicsError BurningMechanism

-- `BurningMechanism::new`
unfoldable pub new_burning : BurnConfig → BurningMechanism
new_burning config = record {
  config = config;
  total_burned = 0;
  history = [];
  fee_burns = 0;
  excess_burns = 0;
  slashing_burns = 0;
  buyback_burns = 0;
}

unfoldable pub calculate_fee_burn : Amount → BurnConfig → Amount
calculate_fee_burn total_fees c =
    to_word u64_mod
      (div (mul (of_nat (first_digit total_fees)) (of_nat c.fee_burn_rate)) (of_nat 10000))

-- `history.push` of a record
abbrev pub push_record : ℕ → ℕ → BurnType → BurningMechanism → BurningMechanism
push_record now block_number t b = record b {
  history =
      b.history ++ (record { burn_type = t; block_number = block_number; timestamp = now } ∷ []);
}

-- `total_burned = total_burned.checked_add(..)?`
abbrev add_total : Amount → BurnExec Unit
add_total amount = do
  total ← gets λ (b : BurningMechanism). b.total_burned
  sum ← lift (ok_or (checked_add total amount) overflow_error)
  modify λ (b : BurningMechanism). record b { total_burned = sum }

-- The fee of a transaction at the gas of 21000, burned in part.
abbrev pub fee_burn : Transaction → BurnConfig → Amount
fee_burn tx c = calculate_fee_burn (calculate_fee tx 21000) c

-- The loop over the transactions, with the sum of what is burned.
unfoldable pub burn_fees : Host → ℕ → ℕ → List Transaction → Amount → BurnExec Amount
unfolding calculate_fee_burn
burn_fees host now block_number [] total = pure total
burn_fees host now block_number (tx ∷ txs) total = do
  amount ← gets λ (b : BurningMechanism). fee_burn tx b.config
  modify (push_record now block_number (transaction_fee (transaction_hash host tx) amount))
  sum ← lift (ok_or (checked_add total amount) overflow_error)
  burn_fees host now block_number txs sum

-- The end of the call: the sum goes to the fee burns and to the total.
abbrev pub add_fees : Amount → BurnExec Unit
add_fees total = do
  fees ← gets λ (b : BurningMechanism). b.fee_burns
  sum ← lift (ok_or (checked_add fees total) overflow_error)
  modify λ (b : BurningMechanism). record b { fee_burns = sum }
  add_total total

unfoldable pub burn_transaction_fees : Host → ℕ → List Transaction → ℕ → BurnExec Amount
unfolding burn_fees
burn_transaction_fees host now transactions block_number = do
  total ← burn_fees host now block_number transactions 0
  add_fees total
  pure total

-- The part of the fees of the treasury that is burned.
abbrev pub excess_amount : F64 → Amount → BurnConfig → Amount
excess_amount utility_index treasury_fees c =
    let excess_ratio = div (sub utility_index c.utility_target) c.utility_target in
    let treasury = of_nat (first_digit treasury_fees) in
    to_word u64_mod (fmin (mul treasury excess_ratio) treasury)

abbrev pub burn_excess : ℕ → F64 → Amount → ℕ → BurnExec Amount
burn_excess now utility_index treasury_fees block_number = do
  amount ← gets λ (b : BurningMechanism). excess_amount utility_index treasury_fees b.config
  modify (push_record now block_number (excess_utility utility_index amount))
  excess ← gets λ (b : BurningMechanism). b.excess_burns
  sum ← lift (ok_or (checked_add excess amount) overflow_error)
  modify λ (b : BurningMechanism). record b { excess_burns = sum }
  add_total amount
  pure amount

unfoldable pub burn_excess_utility : ℕ → F64 → Amount → ℕ → BurnExec Amount
burn_excess_utility now utility_index treasury_fees block_number b =
    if not b.config.enable_excess_burn
    then (ok 0, b)
    else if at_most utility_index b.config.utility_target
    then (ok 0, b)
    else burn_excess now utility_index treasury_fees block_number b

unfoldable pub burn_slashed : ℕ → Address → Amount → ℕ → BurnExec Unit
burn_slashed now validator amount block_number = do
  modify (push_record now block_number (slashing validator amount))
  old ← gets λ (b : BurningMechanism). b.slashing_burns
  sum ← lift (ok_or (checked_add old amount) overflow_error)
  modify λ (b : BurningMechanism). record b { slashing_burns = sum }
  add_total amount

unfoldable pub buyback_and_burn : ℕ → Amount → ℕ → BurnExec Unit
buyback_and_burn now amount block_number = do
  modify (push_record now block_number (buy_back amount))
  old ← gets λ (b : BurningMechanism). b.buyback_burns
  sum ← lift (ok_or (checked_add old amount) overflow_error)
  modify λ (b : BurningMechanism). record b { buyback_burns = sum }
  add_total amount

pub record BurnBreakdown : Type 0 where
  pub total : Amount
  pub fee_burns : Amount
  pub excess_burns : Amount
  pub slashing_burns : Amount
  pub buyback_burns : Amount

unfoldable pub burn_breakdown : BurningMechanism → BurnBreakdown
burn_breakdown b = record {
  total = b.total_burned;
  fee_burns = b.fee_burns;
  excess_burns = b.excess_burns;
  slashing_burns = b.slashing_burns;
  buyback_burns = b.buyback_burns;
}

unfoldable pub calculate_burn_rate : Amount → BurningMechanism → F64
calculate_burn_rate total_minted b =
    if is_zero total_minted
    then of_nat 0
    else mul (div (of_nat (first_digit b.total_burned)) (of_nat (first_digit_or 1 total_minted)))
        (of_nat 100)

unfoldable pub update_config : BurnConfig → BurningMechanism → BurningMechanism
update_config config b = record b { config = config }
