-- ===== src/Core/World.antt =====
-- `WorldState` of crates/blockchain-core/src/state.rs: the accounts, and a journal of what to write
-- back when a transaction fails. The journal is a stack; its last entry is the head of the list.
pub mod Access
pub mod Transfer
pub mod Rollback
pub mod Supply
pub mod Root
mod Tests
use kainotes.Prelude.{
  ℕ, Bool, true, false, Option, none, some, List, [], ◌∷◌, ◌++◌, ◌==◌, ◌||◌, leb, ltb,
  if◌then◌else◌,
}
use kainotes.Prelude.Result.{Result, ok, err, panic}
use kainotes.Prelude.Result.Exec.{Exec, lift, gets, modify, reject_if, ◌>>=◌, ◌>>◌}
use kainotes.Dict.Sorted.{sort_by_key}
use kainotes.Dict.{Dict, lookup, insert, remove}
use kainotes.Core.Types.{Bytes, Hash, Address, Amount, zero_hash, address_bytes}
use kainotes.Core.Error.{BlockchainError, insufficient_balance}
use kainotes.Core.Transaction.{is_empty}
use kainotes.Core.Account.{Account, AccountExec, empty_account, sub_balance, add_balance}
use kainotes.Core.Host.{Host}

pub data StateModification : Type 0 where
  checkpoint_mark : StateModification
  account_set : Address → Option Account → StateModification

pub record WorldState : Type 0 where
  pub accounts : Dict Account
  pub modifications : List StateModification

-- `WorldState::new`
abbrev pub empty_world : WorldState
empty_world = record { accounts = []; modifications = [] }

abbrev pub WorldExec : Type 0 → Type 0
WorldExec = Exec BlockchainError WorldState

-- `unwrap_or_default`
abbrev pub or_empty : Option Account → Account
or_empty none = empty_account
or_empty (some a) = a

unfoldable pub get_account : Address → WorldState → Account
get_account address s = or_empty (lookup address s.accounts)

unfoldable pub get_balance : Address → WorldState → Amount
get_balance address s = elim (lookup address s.accounts) [ none ↦ 0 | some a ↦ a.balance ]

unfoldable pub get_nonce : Address → WorldState → ℕ
get_nonce address s = elim (lookup address s.accounts) [ none ↦ 0 | some a ↦ a.nonce ]

-- the search of `record_account_modification`, back to the last checkpoint
unfoldable pub is_recorded : Address → List StateModification → Bool
is_recorded address [] = false
is_recorded address (checkpoint_mark ∷ ms) = false
is_recorded address (account_set a old ∷ ms) = a == address || is_recorded address ms

unfoldable pub record_account_modification : Address → WorldState → WorldState
record_account_modification address s =
    if is_recorded address s.modifications then s else record s {
      modifications = account_set address (lookup address s.accounts) ∷ s.modifications;
    }

-- `get_account_mut`, with the method that the caller runs on the account
unfoldable pub with_account : {A : Type 0} → Address → Exec BlockchainError Account A → WorldExec A
with_account address m s =
    let s1 = record_account_modification address s in
    let (r, a) = m (or_empty (lookup address s1.accounts)) in
    (r, record s1 { accounts = insert address a s1.accounts })

unfoldable pub set_account : Address → Account → WorldState → WorldState
set_account address account s =
    let s1 = record_account_modification address s in
    record s1 { accounts = insert address account s1.accounts }

-- A method run on a copy of an account.
abbrev pub updated : Result BlockchainError Unit × Account → Result BlockchainError Account
updated (ok u, a) = ok a
updated (err e, a) = err e
updated (panic, a) = panic

unfoldable pub transfer : Address → Address → Amount → WorldExec Unit
transfer from to amount = do
  from_account ← gets (get_account from)
  to_account ← gets (get_account to)
  reject_if (ltb from_account.balance amount) insufficient_balance
  new_from ← lift (updated (sub_balance amount from_account))
  new_to ← lift (updated (add_balance amount to_account))
  modify (set_account from new_from)
  modify (set_account to new_to)

unfoldable pub checkpoint : WorldState → WorldState
checkpoint s = record s { modifications = checkpoint_mark ∷ s.modifications }

-- the loop of `commit`: pops up to and with the last checkpoint
unfoldable pub drop_transaction : List StateModification → List StateModification
drop_transaction [] = []
drop_transaction (checkpoint_mark ∷ ms) = ms
drop_transaction (account_set a old ∷ ms) = drop_transaction ms

unfoldable pub commit : WorldState → WorldState
commit s = record s { modifications = drop_transaction s.modifications }

-- Writes one journal entry back.
abbrev pub restore : Address → Option Account → Dict Account → Dict Account
restore address none accounts = remove address accounts
restore address (some old) accounts = insert address old accounts

-- the loop of `rollback` on the accounts
unfoldable pub undo : List StateModification → Dict Account → Dict Account
undo [] accounts = accounts
undo (checkpoint_mark ∷ ms) accounts = accounts
undo (account_set a old ∷ ms) accounts = undo ms (restore a old accounts)

unfoldable pub rollback : WorldState → WorldState
unfolding drop_transaction undo
rollback s = record {
  accounts = undo s.modifications s.accounts;
  modifications = drop_transaction s.modifications;
}

module _ (host : Host) where
  -- the bytes that `state_root` hashes
  unfoldable pub combined : Dict Account → Bytes
  combined [] = []
  combined ((a, account) ∷ l) = address_bytes a ++ host.serialize_account account ++ combined l

  unfoldable pub state_root : WorldState → Hash
  unfolding sort_by_key combined
  state_root s =
      let bytes = combined (sort_by_key s.accounts) in
      if is_empty bytes then zero_hash else host.sha256 bytes
