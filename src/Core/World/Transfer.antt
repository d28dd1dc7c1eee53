-- ===== src/Core/World/Transfer.antt =====
-- What `WorldState::transfer` does, in one equation, and what a reader of one account sees of it.
use kainotes.Prelude.{
  Bool-cases, inl, inr, ◌+◌, ◌-◌, ◌≡◌, ◌≢◌, ◌⊎◌, ◌≤◌, refl, arith, ltb, ◌==◌, if◌then◌else◌,
}
use kainotes.Prelude.Result.{ok, err}
use kainotes.Core.World.Access.{get_account-set_account}
use kainotes.Core.Types.{Address, Amount}
use kainotes.Core.Error.{insufficient_balance}
use kainotes.Core.Account.{Account, sub_balance, add_balance}
use kainotes.Core.World.{WorldState, get_account, set_account, transfer}

-- The account with another balance.
abbrev pub rebalanced : Account → Amount → Account
rebalanced a balance = record a { balance = balance }

-- The state after a transfer that is covered.
abbrev pub after_transfer : Address → Address → Amount → WorldState → WorldState
after_transfer from to amount s =
    let a = get_account from s in
    let b = get_account to s in
    set_account to (rebalanced b (b.balance + amount))
      (set_account from (rebalanced a (a.balance - amount)) s)

pub transfer_lem :
    (from to : Address) (amount : Amount) (s : WorldState)
    → transfer from to amount s ≡ (
        if ltb (get_account from s).balance amount
        then (err insufficient_balance, s)
        else (ok tt, after_transfer from to amount s))
unfolding transfer sub_balance add_balance
transfer_lem from to amount s = ground arith

pub get_account-after_transfer :
    (from to k : Address) (amount : Amount) (s : WorldState)
    → get_account k (after_transfer from to amount s) ≡ (
        if to == k
        then rebalanced (get_account to s) ((get_account to s).balance + amount)
        else if from == k
        then rebalanced (get_account from s) ((get_account from s).balance - amount)
        else get_account k s)
get_account-after_transfer from to k amount s = simp get_account-set_account

-- A covered transfer between two addresses succeeds, takes the amount from the balance of the one
-- and adds it to the balance of the other, leaves the rest of both accounts, and no third account
-- changes. A transfer that is not covered fails and leaves the world state as it was.
pub transfer_moves :
    (from to k : Address) (amount : Amount) (s : WorldState)
    → from ≢ to
    → let (r, t) = transfer from to amount s in
      let a = get_account from s in
      let b = get_account to s in
      (r ≡ (if ltb a.balance amount then err insufficient_balance else ok tt))
      × (get_account k t ≡ (
          if ltb a.balance amount
          then get_account k s
          else if from == k
          then record a { balance = a.balance - amount }
          else if to == k
          then record b { balance = b.balance + amount }
          else get_account k s))
      × ((t ≡ s) ⊎ (amount ≤ a.balance))
transfer_moves from to k amount s h =
    rw (transfer_lem from to amount s)
      (elim (Bool-cases (ltb (get_account from s).balance amount)) [
        | inl short ↦ rw short (refl, refl, inl refl)
        | inr covered ↦ rw covered (
          refl,
          ground (arith, get_account-after_transfer from to k amount s),
          inr (ground (arith, covered)),
        )
      ])
