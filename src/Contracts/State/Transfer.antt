-- ===== src/Contracts/State/Transfer.antt =====
-- `EVMState::transfer` of crates/smart-contracts/src/state.rs, and the sum of the balances.
use kainotes.Prelude.{
  ◌+◌, ◌-◌, ◌≤◌, ◌≡◌, refl, ◌≢◌, arith, false, ◌==◌, ltb, if◌then◌else◌, Bool-cases, inl, inr,
}
use kainotes.Prelude.Result.{ok, err}
use kainotes.Dict.Laws.{lookup-insert}
use kainotes.Dict.Sums.{total, total-insert}
use kainotes.Core.Types.{Address, Amount}
use kainotes.Contracts.Gas.{execution_error}
use kainotes.Contracts.State.{EvmState, get_balance, set_balance, transfer}

-- All balances together.
abbrev pub supply : EvmState → Amount
supply s = total (λ b. b) s.balances

supply-set_balance :
    (a : Address) (b : Amount) (s : EvmState)
    → supply (set_balance a b s) + get_balance a s ≡ supply s + b
unfolding set_balance get_balance
supply-set_balance a b s = ground (arith, total-insert (λ x. x) a b s.balances)

get_balance-set_balance :
    (k a : Address) (b : Amount) (s : EvmState)
    → get_balance k (set_balance a b s) ≡ (if a == k then b else get_balance k s)
unfolding set_balance get_balance
get_balance-set_balance k a b s = ground (arith, lookup-insert k a b s.balances)

-- A transfer that is not covered fails and changes nothing; one that is covered succeeds and leaves
-- the receiver's balance as it was read before, with the amount added.
transfer_lem :
    (from to : Address) (amount : Amount) (s : EvmState)
    → transfer from to amount s ≡ (
        if ltb (get_balance from s) amount then (err execution_error, s) else (
          ok tt,
          set_balance to
              (get_balance to s + amount)
              (set_balance from (get_balance from s - amount) s),
        ))
unfolding transfer
transfer_lem from to amount s = ground arith

-- A transfer between two addresses keeps the sum of all balances, whether it is covered or not; a
-- covered one takes the amount from the one and gives it to the other, and touches no third balance.
pub engine_transfer_moves :
    (from to k : Address) (amount : Amount) (s : EvmState)
    → from ≢ to
    → (supply (transfer from to amount s).1 ≡ supply s)
      × (get_balance k (transfer from to amount s).1 ≡ (
          if ltb (get_balance from s) amount
          then get_balance k s
          else if from == k
          then get_balance k s - amount
          else if to == k
          then get_balance k s + amount
          else get_balance k s))
engine_transfer_moves from to k amount s h =
    let s1 = set_balance from (get_balance from s - amount) s in
    let paid = supply-set_balance from (get_balance from s - amount) s in
    let given = supply-set_balance to (get_balance to s + amount) s1 in
    let receiver = get_balance-set_balance to from (get_balance from s - amount) s in
    let third = get_balance-set_balance k from (get_balance from s - amount) s in
    let last = get_balance-set_balance k to (get_balance to s + amount) s1 in
    rw (transfer_lem from to amount s) (elim (Bool-cases (ltb (get_balance from s) amount)) [
      | inl short ↦ rw short (refl, refl)
      | inr covered ↦ rw covered (
        ground (arith, covered, paid, given, receiver, h),
        ground (arith, covered, receiver, third, last, h),
      )
    ])

-- A covered transfer of an address to itself succeeds and raises the sum of all balances by its
-- amount.
engine_transfer_self_creates :
    (a : Address) (amount : Amount) (s : EvmState)
    → amount ≤ get_balance a s
    → ((transfer a a amount s).0 ≡ ok tt) × (supply (transfer a a amount s).1 ≡ supply s + amount)
engine_transfer_self_creates a amount s h =
    let s1 = set_balance a (get_balance a s - amount) s in
    let covered : ltb (get_balance a s) amount ≡ false = ground (arith, h) in
    let paid = supply-set_balance a (get_balance a s - amount) s in
    let given = supply-set_balance a (get_balance a s + amount) s1 in
    let left = get_balance-set_balance a a (get_balance a s - amount) s in
    rw (transfer_lem a a amount s, covered) (refl, ground (arith, paid, given, left, h))
