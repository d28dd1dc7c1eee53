-- ===== src/Core/World/Tests.antt =====
-- Runs of the world state, and the theorems of its modules at concrete worlds.
use kainotes.Prelude.{◌⊎◌, ◌≤◌, ◌≡◌, refl, some, [], ◌∷◌, arith}
use kainotes.Prelude.Result.{ok}
use kainotes.Dict.{lookup, insert}
use kainotes.Core.Account.{stake, sub_balance, add_balance}
use kainotes.Core.Samples.{holding}
use kainotes.Core.World.{
  WorldState, get_account, set_account, record_account_modification, is_recorded, transfer,
  with_account, checkpoint, rollback,
}
use kainotes.Core.World.Transfer.{transfer_moves}
use kainotes.Core.World.Supply.{supply, transfer_self_creates}
use kainotes.Core.World.Rollback.{SameAccounts, Edits, start, call, move, rollback_restores}

abbrev two_accounts : WorldState
two_accounts = record { accounts = (4, holding 100 0) ∷ (9, holding 20 5) ∷ []; modifications = [] }

-- A transfer to a new address, then a stake that fails.
abbrev edited : WorldState
edited = (with_account 9 (stake 50) (transfer 4 7 30 (checkpoint two_accounts)).1).1

edited-Edits : Edits (checkpoint two_accounts) edited
edited-Edits = call 9 (stake 50) (move 4 7 30 start)

new_account_is_seen : lookup 7 edited.accounts ≡ some (holding 30 0)
unfolding transfer with_account checkpoint lookup insert stake set_account
    record_account_modification get_account sub_balance add_balance is_recorded
new_account_is_seen = refl

rollback_restores_example :
    SameAccounts (rollback edited).accounts two_accounts.accounts
    × ((rollback edited).modifications ≡ [])
rollback_restores_example = rollback_restores two_accounts edited edited-Edits

transfer_moves_example :
    ((transfer 4 9 30 two_accounts).0 ≡ ok tt)
    × (get_account 9 (transfer 4 9 30 two_accounts).1 ≡ holding 50 5)
    × (((transfer 4 9 30 two_accounts).1 ≡ two_accounts) ⊎ (30 ≤ 100))
unfolding get_account lookup
transfer_moves_example = transfer_moves 4 9 9 30 two_accounts (omega arith)

transfer_self_creates_example :
    ((transfer 4 4 30 two_accounts).0 ≡ ok tt) × (supply (transfer 4 4 30 two_accounts).1 ≡ 155)
unfolding get_account lookup
transfer_self_creates_example = transfer_self_creates 4 30 two_accounts (omega arith)
