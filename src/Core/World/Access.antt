-- ===== src/Core/World/Access.antt =====
-- `get_account_mut` and `set_account` of crates/blockchain-core/src/state.rs: what a reader of the
-- accounts, and a sum over them, sees of a write.
use kainotes.Prelude.{ℕ, ◌+◌, ◌≡◌, some, arith, ◌==◌, if◌then◌else◌}
use kainotes.Prelude.Result.Exec.{Exec}
use kainotes.Dict.{lookup}
use kainotes.Dict.Laws.{lookup-insert}
use kainotes.Dict.Sums.{total, total-insert}
use kainotes.Core.Types.{Address}
use kainotes.Core.Error.{BlockchainError}
use kainotes.Core.Account.{Account, empty_account}
use kainotes.Core.World.{
  WorldState, get_account, get_balance, get_nonce, set_account, with_account,
  record_account_modification,
}

pub lookup-set_account :
    (k a : Address) (v : Account) (s : WorldState)
    → lookup k (set_account a v s).accounts ≡ (if a == k then some v else lookup k s.accounts)
unfolding set_account record_account_modification
lookup-set_account k a v s = ground (arith, lookup-insert k a v s.accounts)

pub get_account-set_account :
    (k a : Address) (v : Account) (s : WorldState)
    → get_account k (set_account a v s) ≡ (if a == k then v else get_account k s)
unfolding get_account
get_account-set_account k a v s = ground (arith, lookup-set_account k a v s)

-- The readers of single fields agree with the account.
pub get_balance_lem : (a : Address) (s : WorldState) → get_balance a s ≡ (get_account a s).balance
unfolding get_balance get_account
get_balance_lem a s = ground arith

pub get_nonce_lem : (a : Address) (s : WorldState) → get_nonce a s ≡ (get_account a s).nonce
unfolding get_nonce get_account
get_nonce_lem a s = ground arith

module _ {A : Type 0} (a : Address) (m : Exec BlockchainError Account A) (s : WorldState) where
  -- The method runs on the account as `get_account` reads it.
  pub with_account_lem :
      ((with_account a m s).0 ≡ (m (get_account a s)).0)
      × ((with_account a m s).1 ≡ set_account a (m (get_account a s)).1 s)
  unfolding with_account set_account record_account_modification get_account
  with_account_lem = ground arith

  pub get_account-with_account :
      (k : Address)
      → get_account k (with_account a m s).1
        ≡ (if a == k then (m (get_account a s)).1 else get_account k s)
  get_account-with_account k = rw (with_account_lem.1) (get_account-set_account k a _ s)

module _ (f : Account → ℕ) (f0 : f empty_account ≡ 0) where
  pub total-set_account :
      (a : Address) (v : Account) (s : WorldState)
      → total f (set_account a v s).accounts + f (get_account a s) ≡ total f s.accounts + f v
  unfolding set_account record_account_modification get_account
  total-set_account a v s = ground (arith, total-insert f a v s.accounts, f0)

  pub total-with_account :
      {A : Type 0} (a : Address) (m : Exec BlockchainError Account A) (s : WorldState)
      → total f (with_account a m s).1.accounts + f (get_account a s)
        ≡ total f s.accounts + f (m (get_account a s)).1
  total-with_account a m s = rw ((with_account_lem a m s).1) (total-set_account a _ s)
