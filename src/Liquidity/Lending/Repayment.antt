-- ===== src/Liquidity/Lending/Repayment.antt =====
-- The ends of a loan in crates/liquidity/src/lending.rs: repayment, in whole or in part, and
-- liquidation.
use kainotes.Prelude.{ℕ, not, leb, if◌then◌else◌, min}
use kainotes.Prelude.Result.{ok_or}
use kainotes.Prelude.Result.Exec.{pure, lift, gets, modify, reject_if, ◌>>=◌, ◌>>◌}
use kainotes.Prelude.Float.{of_nat, div}
use kainotes.Dict.{lookup}
use kainotes.Core.Types.{Address, Amount, Hash, is_zero, checked_sub}
use kainotes.Liquidity.Error.{pool_error, calculation_error, position_not_found}
use kainotes.Liquidity.Lending.{
  LendingExec, LendingPool, LoanPosition, accrue_interest, is_active, is_liquidatable, put_loan,
  total_debt, repaid, liquidated,
}

-- All is paid: the collateral goes back.
unfoldable pub repay_all : Hash → LoanPosition → LendingExec (Amount × Amount)
repay_all id l = do
  modify (put_loan id (record l { status = repaid }))
  total ← gets λ (p : LendingPool). p.total_borrowed
  rest ← lift (ok_or (checked_sub total l.principal) calculation_error)
  modify λ (p : LendingPool). record p { total_borrowed = rest }
  pure (l.collateral, 0)

-- A part is paid, the interest first.
unfoldable pub repay_interest :
    Hash → LoanPosition → Amount → Amount → LendingExec (Amount × Amount)
repay_interest id l amount remaining = do
  interest ← lift (ok_or (checked_sub l.interest amount) calculation_error)
  modify (put_loan id (record l { interest = interest }))
  pure (0, remaining)

unfoldable pub repay_principal :
    Hash → LoanPosition → Amount → Amount → LendingExec (Amount × Amount)
repay_principal id l amount remaining = do
  payment ← lift (ok_or (checked_sub amount l.interest) calculation_error)
  modify (put_loan id (record l { interest = 0 }))
  principal ← lift (ok_or (checked_sub l.principal payment) calculation_error)
  modify (put_loan id (record l { interest = 0; principal = principal }))
  total ← gets λ (p : LendingPool). p.total_borrowed
  rest ← lift (ok_or (checked_sub total payment) calculation_error)
  modify λ (p : LendingPool). record p { total_borrowed = rest }
  pure (0, remaining)

unfoldable pub pay_down : Hash → LoanPosition → Amount → Amount → LendingExec (Amount × Amount)
unfolding repay_all repay_interest repay_principal
pay_down id l amount remaining =
    if is_zero remaining
    then repay_all id l
    else (if leb amount l.interest
        then repay_interest id l amount remaining
        else repay_principal id l amount remaining)

unfoldable pub repay : ℕ → Hash → Amount → LendingExec (Amount × Amount)
unfolding accrue_interest total_debt pay_down
repay now id amount = do
  found ← gets λ (p : LendingPool). lookup id p.loans
  old ← lift (ok_or found position_not_found)
  reject_if (not (is_active old.status)) pool_error
  let l = accrue_interest now old
  modify (put_loan id l)
  let debt = total_debt l
  remaining ← lift (ok_or (checked_sub debt (min amount debt)) calculation_error)
  pay_down id l amount remaining

unfoldable pub liquidate : Hash → LendingExec (Address × Amount)
liquidate id = do
  found ← gets λ (p : LendingPool). lookup id p.loans
  l ← lift (ok_or found position_not_found)
  threshold ← gets λ (p : LendingPool). div (of_nat p.liquidation_threshold) (of_nat 10000)
  reject_if (not (is_liquidatable threshold l)) pool_error
  modify (put_loan id (record l { status = liquidated }))
  total ← gets λ (p : LendingPool). p.total_borrowed
  rest ← lift (ok_or (checked_sub total l.principal) calculation_error)
  modify λ (p : LendingPool). record p { total_borrowed = rest }
  pure (l.borrower, l.collateral)
