-- ===== src/Liquidity/Lending/Owed.antt =====
-- How the operations of crates/liquidity/src/lending.rs keep the loans and the totals together.
use kainotes.Prelude.{
  ℕ, ◌-◌, ◌≤◌, ◌≡◌, refl, true, Option, none, some, arith, leb, if◌then◌else◌, min, Option-cases,
  Bool-cases, inl, inr,
}
use kainotes.Prelude.Result.{ok_or}
use kainotes.Prelude.Result.Exec.{lift, ◌>>=◌}
use kainotes.Dict.{lookup, insert}
use kainotes.Dict.Laws.{lookup-insert_self}
use kainotes.Dict.Sums.{total, total-insert, le-total}
use kainotes.Core.Types.{Address, Amount, Hash, is_zero, checked_sub}
use kainotes.Liquidity.Error.{calculation_error}
use kainotes.Liquidity.Pool.{LiquidityPool}
use kainotes.Liquidity.Lending.{
  InterestRate, LoanStatus, active, repaid, liquidated, put_loan, borrow_apy, is_liquidatable,
  LoanPosition, LendingPool, is_active, accrue_interest, total_debt, new_lending, new_loan, supply,
  borrow, available_liquidity,
}
use kainotes.Liquidity.Lending.Repayment.{
  repay, repay_all, repay_interest, repay_principal, pay_down, liquidate,
}

-- The principal that a loan still counts for.
abbrev pub owed : LoanPosition → Amount
owed l = if is_active l.status then l.principal else 0

pub record IsSound (p : LendingPool) : Type 0 where
  pub borrowed : p.total_borrowed ≡ total owed p.loans
  pub covered : p.total_borrowed ≤ p.total_supplied

pub supply-IsSound :
    (now : ℕ) (supplier : Address) (amount : Amount) (p : LendingPool)
    → IsSound p
    → IsSound (supply now supplier amount p).1
unfolding supply
supply-IsSound now supplier amount p s = record {
  borrowed = ground (arith, s.borrowed);
  covered = ground (arith, s.covered);
}

pub borrow-IsSound :
    (loan_id : Address → ℕ → Hash) (now : ℕ) (borrower : Address) (amount collateral : Amount)
    (p : LendingPool)
    → lookup (loan_id borrower now) p.loans ≡ none
    → IsSound p
    → IsSound (borrow loan_id now borrower amount collateral p).1
unfolding borrow available_liquidity new_loan
borrow-IsSound loan_id now borrower amount collateral p h s =
    let l = record (new_loan now borrower amount collateral (borrow_apy p)) {
      id = loan_id borrower now;
    } in
    record {
      borrowed = ground (arith, s.borrowed, h, total-insert owed (loan_id borrower now) l p.loans);
      covered = ground (arith, s.covered);
    }

-- A loan replaced by one that owes as much.
put-IsSound :
    (id : Hash) (old l : LoanPosition) (p : LendingPool)
    → lookup id p.loans ≡ some old
    → owed l ≡ owed old
    → IsSound p
    → IsSound (put_loan id l p)
put-IsSound id old l p f e s = record {
  borrowed = ground (arith, s.borrowed, e, f, total-insert owed id l p.loans);
  covered = s.covered;
}

repay_all-IsSound :
    (id : Hash) (l : LoanPosition) (p : LendingPool)
    → lookup id p.loans ≡ some l
    → l.status ≡ active
    → IsSound p
    → IsSound (repay_all id l p).1
unfolding repay_all
repay_all-IsSound id l p f e s =
    let sums = total-insert owed id (record l { status = repaid }) p.loans in
    record {
      borrowed = ground (arith, s.borrowed, e, f, sums, le-total owed id p.loans);
      covered = ground (arith, s.borrowed, s.covered, e, f, le-total owed id p.loans);
    }

repay_interest-IsSound :
    (id : Hash) (l : LoanPosition) (amount remaining : Amount) (p : LendingPool)
    → lookup id p.loans ≡ some l
    → IsSound p
    → IsSound (repay_interest id l amount remaining p).1
unfolding repay_interest
repay_interest-IsSound id l amount remaining p f s =
    let sums = total-insert owed id (record l { interest = l.interest - amount }) p.loans in
    record { borrowed = ground (arith, s.borrowed, f, sums); covered = ground (arith, s.covered) }

repay_principal-IsSound :
    (id : Hash) (l : LoanPosition) (amount remaining : Amount) (p : LendingPool)
    → lookup id p.loans ≡ some l
    → l.status ≡ active
    → IsSound p
    → IsSound (repay_principal id l amount remaining p).1
unfolding repay_principal
repay_principal-IsSound id l amount remaining p f e s =
    let m = record l { interest = 0 } in
    let n = record l { interest = 0; principal = l.principal - (amount - l.interest) } in
    let sums = total-insert owed id m p.loans in
    let later = total-insert owed id n (insert id m p.loans) in
    let found = lookup-insert_self id m p.loans in
    record {
      borrowed = ground (arith, s.borrowed, f, e, sums, later, found, le-total owed id p.loans);
      covered = ground (arith, s.borrowed, s.covered, f, e, le-total owed id p.loans);
    }

pay_down-IsSound :
    (id : Hash) (l : LoanPosition) (amount remaining : Amount) (p : LendingPool)
    → lookup id p.loans ≡ some l
    → l.status ≡ active
    → IsSound p
    → IsSound (pay_down id l amount remaining p).1
unfolding pay_down
pay_down-IsSound id l amount remaining p f e s = elim (Bool-cases (is_zero remaining)) [
  | inl all ↦ rw (all, pay_down) (repay_all-IsSound id l p f e s)
  | inr part ↦ elim (Bool-cases (leb amount l.interest)) [
    | inl interest ↦
        rw (part, interest, pay_down) (repay_interest-IsSound id l amount remaining p f s)
    | inr principal ↦
        rw (part, principal, pay_down) (repay_principal-IsSound id l amount remaining p f e s)
  ]
]

-- The rest of a repayment, once the interest is up to date.
repay_rest-IsSound :
    (id : Hash) (l : LoanPosition) (amount : Amount) (r : Option Amount) (p : LendingPool)
    → lookup id p.loans ≡ some l
    → l.status ≡ active
    → IsSound p
    → IsSound ((lift (ok_or r calculation_error) >>= pay_down id l amount) p).1
repay_rest-IsSound id l amount none p f e s = s
repay_rest-IsSound id l amount (some remaining) p f e s =
    pay_down-IsSound id l amount remaining p f e s

is_active→active : (t : LoanStatus) → is_active t ≡ true → t ≡ active
is_active→active t h = ground arith

pub repay-IsSound :
    (now : ℕ) (id : Hash) (amount : Amount) (p : LendingPool)
    → IsSound p
    → IsSound (repay now id amount p).1
unfolding repay accrue_interest
repay-IsSound now id amount p s = elim (Option-cases (lookup id p.loans)) [
  | inl missing ↦ rw (missing, repay) s
  | inr (old, f) ↦ elim (Bool-cases (is_active old.status)) [
    | inr closed ↦ rw (f, closed, repay) s
    | inl running ↦
        let l = accrue_interest now old in
        rw (f, running, repay)
          (repay_rest-IsSound id l amount (checked_sub (total_debt l) (min amount (total_debt l)))
            (put_loan id l p) (lookup-insert_self id l p.loans)
            (is_active→active old.status running) (put-IsSound id old l p f refl s))
  ]
]

pub liquidate-IsSound : (id : Hash) (p : LendingPool) → IsSound p → IsSound (liquidate id p).1
unfolding liquidate is_liquidatable
liquidate-IsSound id p s = elim (Option-cases (lookup id p.loans)) [
  | inl missing ↦ rw (missing, liquidate) s
  | inr (l, f) ↦
      let sums = total-insert owed id (record l { status = liquidated }) p.loans in
      record {
        borrowed = ground (arith, s.borrowed, f, sums, le-total owed id p.loans);
        covered = ground (arith, s.borrowed, s.covered, f, le-total owed id p.loans);
      }
]

-- The pools that the operations lead to from a new one, each loan borrowed under a new identity.
module _ (loan_id : Address → ℕ → Hash) where
  pub data Reached : LendingPool → Type 0 where
    fresh :
        (base : LiquidityPool) (m : InterestRate) (collateral_ratio liquidation_threshold : ℕ)
        → Reached (new_lending base m collateral_ratio liquidation_threshold)
    after_supply :
        {p : LendingPool} (now : ℕ) (supplier : Address) (amount : Amount)
        → Reached p
        → Reached (supply now supplier amount p).1
    after_borrow :
        {p : LendingPool} (now : ℕ) (borrower : Address) (amount collateral : Amount)
        → lookup (loan_id borrower now) p.loans ≡ none
        → Reached p
        → Reached (borrow loan_id now borrower amount collateral p).1
    after_repay :
        {p : LendingPool} (now : ℕ) (id : Hash) (amount : Amount)
        → Reached p
        → Reached (repay now id amount p).1
    after_liquidate : {p : LendingPool} (id : Hash) → Reached p → Reached (liquidate id p).1

  Reached-IsSound : (p : LendingPool) → Reached p → IsSound p
  unfolding new_lending
  Reached-IsSound p (fresh base m c t) = record { borrowed = refl; covered = omega arith }
  Reached-IsSound p (after_supply {p = q} now supplier amount r) =
      supply-IsSound now supplier amount q (Reached-IsSound q r)
  Reached-IsSound p (after_borrow {p = q} now borrower amount collateral h r) =
      borrow-IsSound loan_id now borrower amount collateral q h (Reached-IsSound q r)
  Reached-IsSound p (after_repay {p = q} now id amount r) =
      repay-IsSound now id amount q (Reached-IsSound q r)
  Reached-IsSound p (after_liquidate {p = q} id r) = liquidate-IsSound id q (Reached-IsSound q r)

  -- As long as every loan is borrowed under a new identity, what counts as borrowed is the
  -- principals of the active loans, and it never exceeds what was supplied.
  pub borrowed_covered :
      (p : LendingPool)
      → Reached p
      → (p.total_borrowed ≡ total owed p.loans) × (p.total_borrowed ≤ p.total_supplied)
  borrowed_covered p r = let s = Reached-IsSound p r in (s.borrowed, s.covered)
