-- ===== src/Contracts/State/Tests.antt =====
-- The theorems of the state of the contract engine at concrete states.
use kainotes.Prelude.{◌≡◌, [], ◌∷◌, arith}
use kainotes.Dict.{lookup}
use kainotes.Contracts.State.{EvmState, get_balance, transfer}
use kainotes.Contracts.State.Transfer.{supply, engine_transfer_moves}

abbrev two_balances : EvmState
two_balances = record {
  contracts = [];
  storage = (3, (1, 70) ∷ []) ∷ [];
  balances = (3, 100) ∷ (5, 20) ∷ [];
  nonces = [];
}

engine_transfer_moves_example :
    (supply (transfer 3 5 30 two_balances).1 ≡ 120)
    × (get_balance 5 (transfer 3 5 30 two_balances).1 ≡ 50)
unfolding get_balance lookup
engine_transfer_moves_example = engine_transfer_moves 3 5 5 30 two_balances (λ e. omega (arith, e))
