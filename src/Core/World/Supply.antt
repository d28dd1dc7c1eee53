-- ===== src/Core/World/Supply.antt =====
-- The funds in circulation, balances and stakes, under the operations of
-- crates/blockchain-core/src/state.rs.
use kainotes.Prelude.{
  ◌-◌, ◌+◌, ◌≡◌, refl, ◌≢◌, ◌≤◌, arith, ◌==◌, if◌then◌else◌, Bool-cases, inl, inr, ltb,
}
use kainotes.Prelude.Result.{ok}
use kainotes.Dict.Sums.{total}
use kainotes.Core.Types.{Address, Amount}
use kainotes.Core.Account.{
  Account, AccountExec, stake, unstake, deploy_liquidity, withdraw_liquidity,
}
use kainotes.Core.World.{WorldState, get_account, set_account, with_account, transfer}
use kainotes.Core.World.Access.{get_account-set_account, total-set_account, total-with_account}
use kainotes.Core.World.Transfer.{transfer_lem, rebalanced, after_transfer}

-- What an account owns.
abbrev pub funds : Account → Amount
funds a = a.balance + a.staked

-- The funds of all accounts.
abbrev pub supply : WorldState → Amount
supply s = total funds s.accounts

pub supply-set_account :
    (a : Address) (v : Account) (s : WorldState)
    → supply (set_account a v s) + funds (get_account a s) ≡ supply s + funds v
supply-set_account = total-set_account funds refl

pub supply-with_account :
    (a : Address) (m : AccountExec) (s : WorldState)
    → supply (with_account a m s).1 + funds (get_account a s)
      ≡ supply s + funds (m (get_account a s)).1
supply-with_account = total-with_account funds refl

-- Staking and unstaking move funds within the account, whether they succeed or fail.
pub funds-stake : (amount : Amount) (a : Account) → funds (stake amount a).1 ≡ funds a
unfolding stake
funds-stake amount a = ground arith

pub funds-unstake : (amount : Amount) (a : Account) → funds (unstake amount a).1 ≡ funds a
unfolding unstake
funds-unstake amount a = ground arith

pub funds-deploy_liquidity :
    (amount : Amount) (a : Account) → funds (deploy_liquidity amount a).1 ≡ funds a
unfolding deploy_liquidity
funds-deploy_liquidity amount a = ground arith

pub funds-withdraw_liquidity :
    (amount : Amount) (a : Account) → funds (withdraw_liquidity amount a).1 ≡ funds a
unfolding withdraw_liquidity
funds-withdraw_liquidity amount a = ground arith

supply-after_transfer :
    (from to : Address) (amount : Amount) (s : WorldState)
    → amount ≤ (get_account from s).balance
    → supply (after_transfer from to amount s)
      ≡ (if from == to then supply s + amount else supply s)
supply-after_transfer from to amount s covered = ground (
  arith,
  supply-set_account from (rebalanced (get_account from s) ((get_account from s).balance - amount))
      s,
  supply-set_account to (rebalanced (get_account to s) ((get_account to s).balance + amount)) (
      set_account from (rebalanced (get_account from s) ((get_account from s).balance - amount)) s),
  get_account-set_account to from
      (rebalanced (get_account from s) ((get_account from s).balance - amount)) s,
)

-- A transfer between two addresses, covered or not, keeps the sum of all balances and stakes.
pub transfer_conserves :
    (from to : Address) (amount : Amount) (s : WorldState)
    → from ≢ to
    → supply (transfer from to amount s).1 ≡ supply s
transfer_conserves from to amount s h =
    elim (Bool-cases (ltb (get_account from s).balance amount)) [
      | inl short ↦ rw (transfer_lem from to amount s, short) refl
      | inr covered ↦
          rw (transfer_lem from to amount s, covered)
            (ground (arith, supply-after_transfer from to amount s))
    ]

-- A covered transfer of an address to itself succeeds and raises the sum of all balances and stakes
-- by its amount.
pub transfer_self_creates :
    (from : Address) (amount : Amount) (s : WorldState)
    → amount ≤ (get_account from s).balance
    → ((transfer from from amount s).0 ≡ ok tt)
      × (supply (transfer from from amount s).1 ≡ supply s + amount)
transfer_self_creates from amount s covered =
    elim (Bool-cases (ltb (get_account from s).balance amount)) [
      | inl short ↦ absurd (ground arith)
      | inr c ↦
          rw (transfer_lem from from amount s, c)
            (refl, ground (arith, supply-after_transfer from from amount s))
    ]
