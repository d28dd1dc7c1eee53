-- ===== src/Core/Chain/Effects.antt =====
-- The effects of one transaction on the world state, `execute_transaction_type` of
-- crates/blockchain-core/src/chain.rs: as edits of accounts, and on the nonces.
use kainotes.Prelude.{◌≡◌, refl, arith, Bool-cases, inl, inr, ltb}
use kainotes.Prelude.Result.{Result, ok, err, panic}
use kainotes.Prelude.Result.Exec.{continue, ◌>>◌}
use kainotes.Core.Types.{Address, Amount}
use kainotes.Core.Error.{BlockchainError}
use kainotes.Core.Transaction.{Transaction, TransactionType, calculate_fee}
use kainotes.Core.Account
use kainotes.Core.Account.{Account}
use kainotes.Core.World
use kainotes.Core.World.{WorldState, WorldExec, get_account, with_account}
use kainotes.Core.World.Access.{get_account-with_account}
use kainotes.Core.World.Transfer.{transfer_lem, get_account-after_transfer}
use kainotes.Core.World.Rollback.{Edits, call, move}
use kainotes.Core.Chain.{run_type, apply_effects, base_gas}

-- The action only edits accounts.
abbrev pub IsEdit : WorldExec Unit → Type 0
IsEdit m = (s t : WorldState) → Edits s t → Edits s (m t).1

then-IsEdit : (m k : WorldExec Unit) → IsEdit m → IsEdit k → IsEdit (m >> k)
then-IsEdit m k hm hk s t e = go (m t) (hm s t e)
  where
    go :
        (p : Result BlockchainError Unit × WorldState)
        → Edits s p.1
        → Edits s (continue p.0 (λ _. k) p.1).1
    go (ok u, t') e' = hk s t' e'
    go (err x, t') e' = e'
    go (panic, t') e' = e'

run_type-IsEdit : (from : Address) (tx_type : TransactionType) → IsEdit (run_type from tx_type)
unfolding run_type
run_type-IsEdit from (TransactionType.transfer to amount) s t e = move from to amount e
run_type-IsEdit from (TransactionType.stake amount) s t e = call from (Account.stake amount) e
run_type-IsEdit from (TransactionType.unstake amount) s t e = call from (Account.unstake amount) e
run_type-IsEdit from (TransactionType.deploy_liquidity pool amount) s t e =
    call from (Account.deploy_liquidity amount) e
run_type-IsEdit from (TransactionType.withdraw_liquidity pool amount) s t e =
    call from (Account.withdraw_liquidity amount) e
run_type-IsEdit from (TransactionType.contract_deployment bytecode args) s t e = e
run_type-IsEdit from (TransactionType.contract_call contract input) s t e = e

-- The effects only edit accounts, however they end.
pub apply_effects-IsEdit : (tx : Transaction) → IsEdit (apply_effects tx)
unfolding apply_effects
apply_effects-IsEdit tx =
    then-IsEdit (with_account tx.from Account.increment_nonce) _
      (λ s t e. call tx.from Account.increment_nonce e)
      (then-IsEdit (run_type tx.from tx.tx_type) _ (run_type-IsEdit tx.from tx.tx_type)
        λ s t e. call tx.from (Account.sub_balance (calculate_fee tx base_gas)) e)

-- The action keeps the nonce of every account.
abbrev pub KeepsNonces : WorldExec Unit → Type 0
KeepsNonces m =
    (k : Address) (s : WorldState) → (get_account k (m s).1).nonce ≡ (get_account k s).nonce

-- A method that keeps the nonce of its account.
abbrev pub KeepsNonce : Account.AccountExec → Type 0
KeepsNonce m = (a : Account) → (m a).1.nonce ≡ a.nonce

pub with_account-KeepsNonces :
    (from : Address) (m : Account.AccountExec) → KeepsNonce m → KeepsNonces (with_account from m)
with_account-KeepsNonces from m h k s =
    rw (get_account-with_account from m s k) (ground (arith, h (get_account from s)))

transfer-KeepsNonces :
    (from to : Address) (amount : Amount) → KeepsNonces (World.transfer from to amount)
transfer-KeepsNonces from to amount k s =
    rw (transfer_lem from to amount s)
      (elim (Bool-cases (ltb (get_account from s).balance amount)) [
        | inl short ↦ rw short refl
        | inr covered ↦ rw covered (ground (arith, get_account-after_transfer from to k amount s))
      ])

pub run_type-KeepsNonces :
    (from : Address) (tx_type : TransactionType) → KeepsNonces (run_type from tx_type)
unfolding run_type Account.stake Account.unstake Account.deploy_liquidity Account.withdraw_liquidity
run_type-KeepsNonces from (TransactionType.transfer to amount) = transfer-KeepsNonces from to amount
run_type-KeepsNonces from (TransactionType.stake amount) =
    with_account-KeepsNonces from (Account.stake amount) λ a. ground arith
run_type-KeepsNonces from (TransactionType.unstake amount) =
    with_account-KeepsNonces from (Account.unstake amount) λ a. ground arith
run_type-KeepsNonces from (TransactionType.deploy_liquidity pool amount) =
    with_account-KeepsNonces from (Account.deploy_liquidity amount) λ a. ground arith
run_type-KeepsNonces from (TransactionType.withdraw_liquidity pool amount) =
    with_account-KeepsNonces from (Account.withdraw_liquidity amount) λ a. ground arith
run_type-KeepsNonces from (TransactionType.contract_deployment bytecode args) = λ k s. refl
run_type-KeepsNonces from (TransactionType.contract_call contract input) = λ k s. refl

pub sub_balance-KeepsNonce : (amount : Amount) → KeepsNonce (Account.sub_balance amount)
unfolding Account.sub_balance
sub_balance-KeepsNonce amount a = ground arith
