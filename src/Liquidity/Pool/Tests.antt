-- ===== src/Liquidity/Pool/Tests.antt =====
-- Runs of the pool of crates/liquidity/src/pool.rs, and the theorem on its balances at one of them.
use kainotes.Prelude.{◌+◌, ◌≡◌, refl, List, [], ◌∷◌}
use kainotes.Dict.{lookup, insert, remove, contains}
use kainotes.Dict.Sums.{total}
use kainotes.Liquidity.Pool.{
  PoolInfo, LiquidityPool, lending, new_info, new_pool, new_metrics, deposit, request_withdrawal,
  process_withdrawals, ready, settle, settle_all, pay, get_balance, note_deposit,
  update_avg_deposit, is_empty,
}
use kainotes.Liquidity.Pool.Balance.{amount_of}
use kainotes.Liquidity.Pool.Calls.{PoolCall, deposits, requests, processes, calls, pool_balances}

abbrev sample_info : PoolInfo
sample_info = new_info 100 1 lending [] 7 500 3000

abbrev sample_calls : List PoolCall
sample_calls =
    deposits 101 4 50
    ∷ deposits 102 5 30
    ∷ requests 103 4 20 110
    ∷ requests 104 5 60 105
    ∷ processes 109
    ∷ processes 110
    ∷ []

abbrev sample_pool : LiquidityPool
sample_pool = calls sample_calls (new_pool 100 sample_info)

info_is_empty : sample_info.tvl ≡ 0
unfolding new_info
info_is_empty = refl

pool_balances_example :
    (sample_pool.info.tvl ≡ total amount_of sample_pool.deposits)
    × (sample_pool.metrics.total_deposits
        ≡ sample_pool.metrics.total_withdrawals + sample_pool.info.tvl)
pool_balances_example = pool_balances 100 sample_info sample_calls info_is_empty

-- The request of more than the balance is refused, and the other one is paid when it is due.
sixty_left : sample_pool.info.tvl ≡ 60
unfolding new_info new_pool new_metrics deposit request_withdrawal process_withdrawals ready settle
    settle_all pay get_balance note_deposit update_avg_deposit is_empty lookup insert remove
    contains
sixty_left = refl
