-- ===== src/Liquidity/Amm/Tests.antt =====
-- A swap of crates/liquidity/src/amm.rs, and the theorem on swaps at it.
use kainotes.Prelude.{◌+◌, ◌≤◌, ◌≡◌, ◌⊎◌, refl, []}
use kainotes.Prelude.Float.{of_nat, add, sub, mul, div, to_word}
use kainotes.Prelude.Result.{ok}
use kainotes.Liquidity.Pool.{amm, new_info, new_pool}
use kainotes.Liquidity.Amm.{AmmPool, swap, get_swap_quote, quote_for, slippage}
use kainotes.Liquidity.Amm.Reserves.{swap_exact}

abbrev before_swap : AmmPool
before_swap = record {
  base = new_pool 100 (new_info 100 1 amm [] 7 500 3000);
  pair = record { token_a = 3; token_b = 9 };
  reserve_a = 1000;
  reserve_b = 2000;
  total_shares = 1414;
  fee_rate = 30;
}

abbrev after_swap : AmmPool
after_swap = record before_swap { reserve_a = 1100; reserve_b = 1819 }

swap_returns : swap 3 100 180 before_swap ≡ (ok 181, after_swap)
unfolding swap get_swap_quote quote_for slippage of_nat add sub mul div to_word
swap_returns = refl

swap_exact_example :
    (180 ≤ 181)
    × (after_swap.total_shares ≡ before_swap.total_shares)
    × (after_swap.base ≡ before_swap.base)
    × ((3 ≡ before_swap.pair.token_a)
          × (181
              ≡ (quote_for before_swap.fee_rate 100 before_swap.reserve_a
                  before_swap.reserve_b).amount_out)
          × (after_swap.reserve_a ≡ before_swap.reserve_a + 100)
          × (after_swap.reserve_b + 181 ≡ before_swap.reserve_b)
        ⊎ (3 ≡ before_swap.pair.token_b)
          × (181
              ≡ (quote_for before_swap.fee_rate 100 before_swap.reserve_b
                  before_swap.reserve_a).amount_out)
          × (after_swap.reserve_b ≡ before_swap.reserve_b + 100)
          × (after_swap.reserve_a + 181 ≡ before_swap.reserve_a))
swap_exact_example = swap_exact 3 100 180 181 before_swap after_swap swap_returns
