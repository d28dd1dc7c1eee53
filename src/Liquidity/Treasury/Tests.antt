-- ===== src/Liquidity/Treasury/Tests.antt =====
-- A run of the treasury of crates/liquidity/src/treasury.rs, and the theorem on its grants at it.
use kainotes.Prelude.{ℕ, ◌+◌, ◌*◌, ◌≡◌, refl, true, false, none, some, List, [], ◌∷◌}
use kainotes.Dict.{lookup, insert}
use kainotes.Core.Types.{Address, Hash}
use kainotes.Liquidity.Pool.{treasury, LiquidityPool, new_info, new_pool}
use kainotes.Liquidity.Treasury.{
  Milestone, Grant, active, development, new_grant, new_allocation, new_treasury, set_allocation,
  propose_grant, approve_grant, is_complete, current_milestone_info, total_milestone_amounts,
  available,
}
use kainotes.Liquidity.Treasury.Payments.{disburse_milestone, reach, spend}
use kainotes.Liquidity.Treasury.Grants.{
  TreasuryCall, allocates, proposes, approves, disburses, calls, left_from, grant_pays_amount,
}

abbrev sample_id : Address → ℕ → Hash
sample_id recipient now = recipient * 1000 + now

abbrev base : LiquidityPool
base = new_pool 100 (new_info 100 1 treasury [] 7 500 3000)

abbrev step_of : ℕ → Milestone
step_of amount = record {
  description = [];
  amount = amount;
  deadline = 900;
  completed = false;
  completed_at = none;
}

abbrev sample_calls : List TreasuryCall
sample_calls =
    allocates development 100
    ∷ proposes 101 8 50 [] (step_of 20 ∷ step_of 30 ∷ []) development
    ∷ approves 102 8101
    ∷ disburses 103 8101 development
    ∷ []

-- The grant after its first milestone.
abbrev paid_once : Grant
paid_once = record {
  id = 8101;
  recipient = 8;
  amount = 50;
  purpose = [];
  milestones = record (step_of 20) { completed = true; completed_at = some 103 } ∷ step_of 30 ∷ [];
  current_milestone = 1;
  disbursed = 20;
  proposed_at = 101;
  approved_at = some 102;
  status = active;
}

grant_is_paid_once :
    lookup 8101 (calls sample_id sample_calls (new_treasury base 3)).grants ≡ some paid_once
unfolding new_treasury set_allocation propose_grant approve_grant disburse_milestone new_grant
    new_allocation reach spend is_complete current_milestone_info total_milestone_amounts available
    lookup insert
grant_is_paid_once = refl

grant_pays_amount_example :
    paid_once.disbursed + left_from paid_once.current_milestone paid_once.milestones
    ≡ paid_once.amount
grant_pays_amount_example =
    grant_pays_amount sample_id base 3 sample_calls 8101 paid_once grant_is_paid_once
