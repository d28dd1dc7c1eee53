-- ===== src/Liquidity/Lending/Tests.antt =====
-- A run of the loans of crates/liquidity/src/lending.rs, and the theorem on their sum at it.
use kainotes.Prelude.{ℕ, ◌+◌, ◌*◌, ◌≤◌, ◌≡◌, refl, none, []}
use kainotes.Dict.{lookup, insert}
use kainotes.Dict.Sums.{total}
use kainotes.Core.Types.{Address, Hash}
use kainotes.Liquidity.Pool.{
  lending, LiquidityPool, new_info, new_pool, new_metrics, deposit, get_balance, note_deposit,
  update_avg_deposit,
}
use kainotes.Liquidity.Lending.{LendingPool, standard, new_lending, supply, borrow}
use kainotes.Liquidity.Lending.Repayment.{repay}
use kainotes.Liquidity.Lending.Owed.{
  Reached, fresh, after_supply, after_borrow, after_repay, owed, borrowed_covered,
}

abbrev sample_id : Address → ℕ → Hash
sample_id borrower now = borrower * 1000 + now

abbrev base : LiquidityPool
base = new_pool 100 (new_info 100 1 lending [] 7 500 3000)

abbrev supplied : LendingPool
supplied = (supply 100 4 1000 (new_lending base standard 15000 12000)).1

abbrev borrowed_once : LendingPool
borrowed_once = (borrow sample_id 101 5 40 100 supplied).1

abbrev repaid_part : LendingPool
repaid_part = (repay 102 5101 15 borrowed_once).1

no_loan_yet : lookup (sample_id 5 101) supplied.loans ≡ none
unfolding supply new_lending deposit new_pool new_info new_metrics get_balance note_deposit
    update_avg_deposit lookup insert
no_loan_yet = refl

repaid-Reached : Reached sample_id repaid_part
repaid-Reached = after_repay 102 5101 15 (
    after_borrow 101 5 40 100 no_loan_yet
      (after_supply 100 4 1000 (fresh base standard 15000 12000)))

borrowed_covered_example :
    (repaid_part.total_borrowed ≡ total owed repaid_part.loans)
    × (repaid_part.total_borrowed ≤ repaid_part.total_supplied)
borrowed_covered_example = borrowed_covered sample_id repaid_part repaid-Reached
