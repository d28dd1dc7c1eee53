-- ===== src/Liquidity/Lending.antt =====
-- crates/liquidity/src/lending.rs: loans against collateral out of what was supplied.
pub mod Repayment
pub mod Owed
mod Tests
use kainotes.Prelude.{
  ℕ, ◌+◌, ◌-◌, ◌*◌, ◌/◌, ◌%◌, Bool, true, false, not, ◌&&◌, Option, none, some, List, [], ltb, leb,
  ◌==◌, if◌then◌else◌, min, filter_by, u64_mod, u16_mod, wrapping_sub,
}
use kainotes.Prelude.Result.{Result, ok, err, panic, ok_or, unwrap_or}
use kainotes.Prelude.Result.Exec.{Exec, pure, lift, gets, modify, reject_if, ◌>>=◌, ◌>>◌}
use kainotes.Prelude.Float.{F64, infinite, of_nat, mul, div, less, to_word}
use kainotes.Dict.{Dict, lookup, insert, values}
use kainotes.Core.Types.{
  Address, Amount, Hash, is_zero, checked_add, checked_sub, first_digit, first_digit_or,
}
use kainotes.Liquidity.Error.{
  LiquidityError, pool_error, deployment_error, calculation_error, insufficient_liquidity,
  position_not_found,
}
use kainotes.Liquidity.Pool.{LiquidityPool, deposit}

-- The rates and the utilization are in hundredths of a percent, in 16 bits.
pub record InterestRate : Type 0 where
  pub base_rate : ℕ
  pub optimal_utilization : ℕ
  pub rate_at_optimal : ℕ
  pub max_rate : ℕ

unfoldable pub standard : InterestRate
standard = record {
  base_rate = 200;
  optimal_utilization = 8000;
  rate_at_optimal = 1000;
  max_rate = 5000;
}

-- A rate between two, as far from the first as `part` is of `whole`.
between : ℕ → ℕ → ℕ → ℕ → ℕ
between low high part whole =
    let progress = div (of_nat part) (of_nat whole) in
    let rate_diff = wrapping_sub u16_mod high low in
    (low + to_word u16_mod (mul (of_nat rate_diff) progress)) % u16_mod

unfoldable pub calculate_rate : F64 → InterestRate → ℕ
unfolding between
calculate_rate utilization m =
    let util_bp = to_word u16_mod (mul utilization (of_nat 10000)) in
    if leb util_bp m.optimal_utilization
    then between m.base_rate m.rate_at_optimal util_bp m.optimal_utilization
    else between m.rate_at_optimal m.max_rate (util_bp - m.optimal_utilization)
        (wrapping_sub u16_mod 10000 m.optimal_utilization)

pub data LoanStatus : Type 0 where
  active repaid liquidated defaulted : LoanStatus

abbrev pub is_active : LoanStatus → Bool
is_active active = true
is_active repaid = false
is_active liquidated = false
is_active defaulted = false

pub record LoanPosition : Type 0 where
  pub id : Hash
  pub borrower : Address
  pub principal : Amount
  pub interest : Amount
  pub collateral : Amount
  pub rate : ℕ
  pub borrowed_at : ℕ
  pub last_accrual : ℕ
  pub status : LoanStatus

-- `LoanPosition::new`
unfoldable pub new_loan : ℕ → Address → Amount → Amount → ℕ → LoanPosition
new_loan now borrower principal collateral rate = record {
  id = 0;
  borrower = borrower;
  principal = principal;
  interest = 0;
  collateral = collateral;
  rate = rate;
  borrowed_at = now;
  last_accrual = now;
  status = active;
}

-- A year has 365.25 days here.
unfoldable pub calculate_interest : ℕ → LoanPosition → Amount
calculate_interest current_time l =
    let elapsed_years = div (of_nat (current_time - l.last_accrual)) (of_nat 31557600) in
    let rate_per_year = div (of_nat l.rate) (of_nat 10000) in
    to_word u64_mod (mul (mul (of_nat (first_digit l.principal)) rate_per_year) elapsed_years)

unfoldable pub accrue_interest : ℕ → LoanPosition → LoanPosition
accrue_interest current_time l = record l {
  interest = unwrap_or l.interest (checked_add l.interest (calculate_interest current_time l));
  last_accrual = current_time;
}

unfoldable pub total_debt : LoanPosition → Amount
total_debt l = unwrap_or l.principal (checked_add l.principal l.interest)

unfoldable pub health_factor : LoanPosition → F64
unfolding total_debt
health_factor l =
    let debt = total_debt l in
    if is_zero debt
    then infinite false
    else div (of_nat (first_digit l.collateral)) (of_nat (first_digit_or 1 debt))

unfoldable pub is_liquidatable : F64 → LoanPosition → Bool
unfolding health_factor
is_liquidatable threshold l = is_active l.status && less (health_factor l) threshold

pub record LendingPool : Type 0 where
  pub base : LiquidityPool
  pub interest_model : InterestRate
  pub total_borrowed : Amount
  pub total_supplied : Amount
  pub loans : Dict LoanPosition
  pub collateral_ratio : ℕ
  pub liquidation_threshold : ℕ

abbrev pub LendingExec : Type 0 → Type 0
LendingExec = Exec LiquidityError LendingPool

-- `LendingPool::new`
unfoldable pub new_lending : LiquidityPool → InterestRate → ℕ → ℕ → LendingPool
new_lending base interest_model collateral_ratio liquidation_threshold = record {
  base = base;
  interest_model = interest_model;
  total_borrowed = 0;
  total_supplied = 0;
  loans = [];
  collateral_ratio = collateral_ratio;
  liquidation_threshold = liquidation_threshold;
}

-- The deposit runs on the pool below.
abbrev on_base : {A : Type 0} → Exec LiquidityError LiquidityPool A → LendingExec A
on_base m p = let (r, base) = m p.base in (r, record p { base = base })

unfoldable pub supply : ℕ → Address → Amount → LendingExec Unit
supply now supplier amount = do
  on_base (deposit now supplier amount)
  supplied ← gets λ (p : LendingPool). p.total_supplied
  sum ← lift (ok_or (checked_add supplied amount) calculation_error)
  modify λ (p : LendingPool). record p { total_supplied = sum }

unfoldable pub utilization_rate : LendingPool → F64
utilization_rate p =
    if is_zero p.total_supplied
    then of_nat 0
    else div (of_nat (first_digit p.total_borrowed)) (of_nat (first_digit_or 1 p.total_supplied))

unfoldable pub borrow_apy : LendingPool → ℕ
unfolding utilization_rate calculate_rate
borrow_apy p = calculate_rate (utilization_rate p) p.interest_model

unfoldable pub supply_apy : LendingPool → ℕ
unfolding borrow_apy utilization_rate
supply_apy p = to_word u16_mod (mul (of_nat (borrow_apy p)) (utilization_rate p))

unfoldable pub calculate_required_collateral : Amount → LendingPool → Amount
calculate_required_collateral borrow_amount p =
    let ratio = div (of_nat p.collateral_ratio) (of_nat 10000) in
    to_word u64_mod (mul (of_nat (first_digit borrow_amount)) ratio)

unfoldable pub available_liquidity : LendingPool → Amount
available_liquidity p = unwrap_or 0 (checked_sub p.total_supplied p.total_borrowed)

abbrev pub put_loan : Hash → LoanPosition → LendingPool → LendingPool
put_loan id l p = record p { loans = insert id l p.loans }

-- The identity of a loan is the hash of the text of its borrower and its time.
module _ (loan_id : Address → ℕ → Hash) where
  unfoldable pub borrow : ℕ → Address → Amount → Amount → LendingExec Hash
  unfolding available_liquidity new_loan
  borrow now borrower borrow_amount collateral = do
    available ← gets available_liquidity
    reject_if (ltb available borrow_amount) (insufficient_liquidity borrow_amount available)
    required ← gets (calculate_required_collateral borrow_amount)
    reject_if (ltb collateral required) deployment_error
    rate ← gets borrow_apy
    total ← gets λ (p : LendingPool). p.total_borrowed
    sum ← lift (ok_or (checked_add total borrow_amount) calculation_error)
    modify λ (p : LendingPool). record p { total_borrowed = sum }
    modify (
        put_loan (loan_id borrower now)
          (record (new_loan now borrower borrow_amount collateral rate) {
            id = loan_id borrower now;
          }))
    pure (loan_id borrower now)

unfoldable pub get_loan : Hash → LendingPool → Option LoanPosition
get_loan id p = lookup id p.loans

unfoldable pub active_loans : LendingPool → List LoanPosition
active_loans p = filter_by (λ (l : LoanPosition). is_active l.status) (values p.loans)
