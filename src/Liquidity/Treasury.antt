-- ===== src/Liquidity/Treasury.antt =====
-- crates/liquidity/src/treasury.rs: grants paid milestone by milestone out of the allocations of a
-- treasury. A category is a string: the number that its bytes spell with a one before them.
pub mod Payments
pub mod Grants
mod Tests
use kainotes.Prelude.{
  ℕ, zero, suc, ◌+◌, ◌*◌, Bool, true, false, not, ◌&&◌, ◌||◌, Option, none, some, List, [], ◌∷◌,
  length, ltb, leb, ◌==◌, if◌then◌else◌, filter_by, sum_of, get_elem?, replace_elem,
}
use kainotes.Prelude.Result.{Result, ok, err, panic, ok_or, unwrap, unwrap_or}
use kainotes.Prelude.Result.Exec.{Exec, pure, lift, gets, modify, reject_if, ◌>>=◌, ◌>>◌}
use kainotes.Prelude.Float.{F64, of_nat, mul, div}
use kainotes.Dict.{Dict, lookup, insert, values}
use kainotes.Core.Types.{
  Address, Amount, Hash, Bytes, is_zero, checked_add, checked_sub, first_digit, first_digit_or,
}
use kainotes.Core.Transaction.{is_empty}
use kainotes.Liquidity.Error.{
  LiquidityError, pool_error, calculation_error, insufficient_liquidity, invalid_allocation,
  position_not_found,
}
use kainotes.Liquidity.Pool.{LiquidityPool, deposit}

abbrev pub Category : Type 0
Category = ℕ

abbrev spell : ℕ → Bytes → Category
spell n [] = n
spell n (b ∷ bs) = spell (n * 256 + b) bs

abbrev pub category_of : Bytes → Category
category_of bs = spell 1 bs

-- "Development", "Marketing", "Research" and "Community"
abbrev pub development : Category
development =
    category_of (b'D' ∷ b'e' ∷ b'v' ∷ b'e' ∷ b'l' ∷ b'o' ∷ b'p' ∷ b'm' ∷ b'e' ∷ b'n' ∷ b't' ∷ [])

abbrev pub marketing : Category
marketing = category_of (b'M' ∷ b'a' ∷ b'r' ∷ b'k' ∷ b'e' ∷ b't' ∷ b'i' ∷ b'n' ∷ b'g' ∷ [])

abbrev pub research : Category
research = category_of (b'R' ∷ b'e' ∷ b's' ∷ b'e' ∷ b'a' ∷ b'r' ∷ b'c' ∷ b'h' ∷ [])

abbrev pub community : Category
community = category_of (b'C' ∷ b'o' ∷ b'm' ∷ b'm' ∷ b'u' ∷ b'n' ∷ b'i' ∷ b't' ∷ b'y' ∷ [])

pub record Milestone : Type 0 where
  pub description : Bytes
  pub amount : Amount
  pub deadline : ℕ
  pub completed : Bool
  pub completed_at : Option ℕ

pub data GrantStatus : Type 0 where
  proposed approved active completed rejected cancelled : GrantStatus

abbrev pub is_proposed : GrantStatus → Bool
is_proposed proposed = true
is_proposed _ = false

abbrev pub is_payable : GrantStatus → Bool
is_payable approved = true
is_payable active = true
is_payable _ = false

abbrev pub is_closed : GrantStatus → Bool
is_closed completed = true
is_closed cancelled = true
is_closed _ = false

pub record Grant : Type 0 where
  pub id : Hash
  pub recipient : Address
  pub amount : Amount
  pub purpose : Bytes
  pub milestones : List Milestone
  pub current_milestone : ℕ
  pub disbursed : Amount
  pub proposed_at : ℕ
  pub approved_at : Option ℕ
  pub status : GrantStatus

-- `Grant::new`
unfoldable pub new_grant : ℕ → Address → Amount → Bytes → List Milestone → Grant
new_grant now recipient amount purpose milestones = record {
  id = 0;
  recipient = recipient;
  amount = amount;
  purpose = purpose;
  milestones = milestones;
  current_milestone = 0;
  disbursed = 0;
  proposed_at = now;
  approved_at = none;
  status = proposed;
}

-- The sum never overflows, and the fold is the sum of the amounts.
unfoldable pub total_milestone_amounts : Grant → Amount
total_milestone_amounts g = sum_of (λ (m : Milestone). m.amount) g.milestones

unfoldable pub current_milestone_info : Grant → Option Milestone
current_milestone_info g = get_elem? g.milestones g.current_milestone

unfoldable pub is_complete : Grant → Bool
is_complete g = leb (length g.milestones) g.current_milestone

unfoldable pub completion_percentage : Grant → F64
completion_percentage g =
    if is_empty g.milestones
    then of_nat 0
    else mul (div (of_nat g.current_milestone) (of_nat (length g.milestones))) (of_nat 100)

pub record TreasuryAllocation : Type 0 where
  pub category : Category
  pub allocated : Amount
  pub spent : Amount
  pub reserved : Amount

-- `TreasuryAllocation::new`
unfoldable pub new_allocation : Category → Amount → TreasuryAllocation
new_allocation category allocated = record {
  category = category;
  allocated = allocated;
  spent = 0;
  reserved = 0;
}

abbrev minus : Option Amount → Amount → Option Amount
minus none b = none
minus (some a) b = checked_sub a b

unfoldable pub available : TreasuryAllocation → Amount
available a = unwrap_or 0 (minus (checked_sub a.allocated a.spent) a.reserved)

-- `TreasuryAllocation::utilization_rate`
unfoldable pub allocation_rate : TreasuryAllocation → F64
allocation_rate a =
    if is_zero a.allocated
    then of_nat 0
    else mul
        (div (of_nat (first_digit (unwrap_or a.spent (checked_add a.spent a.reserved))))
          (of_nat (first_digit_or 1 a.allocated)))
        (of_nat 100)

pub record NetworkTreasury : Type 0 where
  pub base : LiquidityPool
  pub grants : Dict Grant
  pub allocations : Dict TreasuryAllocation
  pub total_granted : Amount
  pub total_disbursed : Amount
  pub governance_threshold : ℕ

abbrev pub TreasuryExec : Type 0 → Type 0
TreasuryExec = Exec LiquidityError NetworkTreasury

-- `NetworkTreasury::new`
unfoldable pub new_treasury : LiquidityPool → ℕ → NetworkTreasury
unfolding new_allocation
new_treasury base governance_threshold = record {
  base = base;
  grants = [];
  allocations = insert community (new_allocation community 0) (
      insert research (new_allocation research 0) (
        insert marketing (new_allocation marketing 0)
          (insert development (new_allocation development 0) [])));
  total_granted = 0;
  total_disbursed = 0;
  governance_threshold = governance_threshold;
}

-- `NetworkTreasury::deposit`
unfoldable pub deposit_funds : ℕ → Address → Amount → TreasuryExec Unit
deposit_funds now depositor amount t =
    let (r, base) = deposit now depositor amount t.base in (r, record t { base = base })

unfoldable pub set_allocation : Category → Amount → NetworkTreasury → NetworkTreasury
unfolding new_allocation
set_allocation category amount t = record t {
  allocations =
      insert category
        (elim (lookup category t.allocations) [
          | none ↦ new_allocation category amount
          | some a ↦ record a { allocated = amount }
        ])
        t.allocations;
}

abbrev pub put_grant : Hash → Grant → NetworkTreasury → NetworkTreasury
put_grant id g t = record t { grants = insert id g t.grants }

abbrev pub put_allocation : Category → TreasuryAllocation → NetworkTreasury → NetworkTreasury
put_allocation category a t = record t { allocations = insert category a t.allocations }

-- `allocations.get(&category).ok_or_else(..)`
abbrev pub find_allocation : Category → TreasuryExec TreasuryAllocation
find_allocation category t = (ok_or (lookup category t.allocations) pool_error, t)

abbrev pub find_grant : Hash → TreasuryExec Grant
find_grant id t = (ok_or (lookup id t.grants) position_not_found, t)

-- The identity of a grant is the hash of the text of its recipient and its time.
module _ (grant_id : Address → ℕ → Hash) where
  unfoldable pub propose_grant :
      ℕ → Address → Amount → Bytes → List Milestone → Category → TreasuryExec Hash
  unfolding available total_milestone_amounts
  propose_grant now recipient amount purpose milestones category = do
    allocation ← find_allocation category
    reject_if (ltb (available allocation) amount)
        (insufficient_liquidity amount (available allocation))
    let grant = new_grant now recipient amount purpose milestones
    reject_if (not (total_milestone_amounts grant == amount)) invalid_allocation
    let id = grant_id recipient now
    reserved ← lift (ok_or (checked_add allocation.reserved amount) calculation_error)
    modify (put_allocation category (record allocation { reserved = reserved }))
    modify (put_grant id (record grant { id = id }))
    pure id

unfoldable pub approve_grant : ℕ → Hash → TreasuryExec Unit
approve_grant now id = do
  grant ← find_grant id
  reject_if (not (is_proposed grant.status)) pool_error
  modify (put_grant id (record grant { status = approved; approved_at = some now }))
  granted ← gets λ (t : NetworkTreasury). t.total_granted
  sum ← lift (ok_or (checked_add granted grant.amount) calculation_error)
  modify λ (t : NetworkTreasury). record t { total_granted = sum }

unfoldable pub get_grant : Hash → NetworkTreasury → Option Grant
get_grant id t = lookup id t.grants

unfoldable pub get_allocation : Category → NetworkTreasury → Option TreasuryAllocation
get_allocation category t = lookup category t.allocations

-- `NetworkTreasury::balance`
unfoldable pub treasury_balance : NetworkTreasury → Amount
treasury_balance t = t.base.info.tvl
