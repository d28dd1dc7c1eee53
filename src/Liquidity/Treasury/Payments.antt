-- ===== src/Liquidity/Treasury/Payments.antt =====
-- The payments of crates/liquidity/src/treasury.rs: a milestone reached, and a grant cancelled.
use kainotes.Prelude.{ℕ, ◌+◌, true, not, some, ◌==◌, if◌then◌else◌, replace_elem}
use kainotes.Prelude.Result.{err, ok_or, unwrap_or}
use kainotes.Prelude.Result.Exec.{pure, lift, gets, modify, reject_if, ◌>>=◌, ◌>>◌}
use kainotes.Core.Types.{Amount, Hash, checked_add, checked_sub}
use kainotes.Liquidity.Error.{pool_error, calculation_error}
use kainotes.Liquidity.Treasury.{
  Category, Grant, Milestone, NetworkTreasury, TreasuryExec, current_milestone_info,
  find_allocation, find_grant, is_closed, is_complete, is_payable, put_allocation, put_grant,
  active, completed, cancelled,
}

-- The grant when its current milestone is reached.
unfoldable pub reach : ℕ → Milestone → Grant → Grant
unfolding is_complete
reach now m g =
    let n = g.current_milestone + 1 in
    let h = record g {
      milestones =
          replace_elem g.current_milestone (record m { completed = true; completed_at = some now })
            g.milestones;
      disbursed = g.disbursed + m.amount;
      current_milestone = n;
      status = if n == 1 then active else g.status;
    } in
    if is_complete h then record h { status = completed } else h

-- The payment out of the allocation, after the grant is updated.
unfoldable pub spend : Category → Amount → TreasuryExec Amount
spend category amount = do
  allocation ← find_allocation category
  spent ← lift (ok_or (checked_add allocation.spent amount) calculation_error)
  modify (put_allocation category (record allocation { spent = spent }))
  reserved ← lift (ok_or (checked_sub allocation.reserved amount) calculation_error)
  modify (put_allocation category (record allocation { spent = spent; reserved = reserved }))
  total ← gets λ (t : NetworkTreasury). t.total_disbursed
  sum ← lift (ok_or (checked_add total amount) calculation_error)
  modify λ (t : NetworkTreasury). record t { total_disbursed = sum }
  pure amount

-- The call that finds every milestone reached marks the grant before it fails.
abbrev refuse_complete : Hash → Grant → TreasuryExec Unit
refuse_complete id g =
    if is_complete g
    then modify (put_grant id (record g { status = completed })) >> lift (err pool_error)
    else pure tt

unfoldable pub disburse_milestone : ℕ → Hash → Category → TreasuryExec Amount
unfolding reach spend
disburse_milestone now id category = do
  grant ← find_grant id
  reject_if (not (is_payable grant.status)) pool_error
  refuse_complete id grant
  milestone ← lift (ok_or (current_milestone_info grant) pool_error)
  reject_if milestone.completed pool_error
  modify (put_grant id (reach now milestone grant))
  spend category milestone.amount

unfoldable pub cancel_grant : Hash → Category → TreasuryExec Unit
cancel_grant id category = do
  grant ← find_grant id
  reject_if (is_closed grant.status) pool_error
  unreleased ← lift (ok_or (checked_sub grant.amount grant.disbursed) calculation_error)
  allocation ← find_allocation category
  modify (
      put_allocation category
        (record allocation { reserved = unwrap_or 0 (checked_sub allocation.reserved unreleased) }))
  modify (put_grant id (record grant { status = cancelled }))
