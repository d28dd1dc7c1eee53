-- ===== src/Liquidity/Amm/Reserves.antt =====
-- What the operations of crates/liquidity/src/amm.rs do to the two reserves.
use kainotes.Prelude.{ℕ, ◌+◌, ◌≤◌, ◌≡◌, ◌⊎◌, arith}
use kainotes.Prelude.Result.{ok}
use kainotes.Core.Types.{Address, Amount}
use kainotes.Liquidity.Amm.{AmmPool, get_swap_quote, quote_for, swap, remove_liquidity}

-- A swap that returns gives the quoted output, which is at least the least one asked for; the reserve
-- of the token that came in grows by the input, the other one falls by the output, and the shares
-- and the pool below stay.
pub swap_exact :
    (token_in : Address) (amount_in min_out out : Amount) (p q : AmmPool)
    → swap token_in amount_in min_out p ≡ (ok out, q)
    → (min_out ≤ out)
      × (q.total_shares ≡ p.total_shares)
      × (q.base ≡ p.base)
      × ((token_in ≡ p.pair.token_a)
            × (out ≡ (quote_for p.fee_rate amount_in p.reserve_a p.reserve_b).amount_out)
            × (q.reserve_a ≡ p.reserve_a + amount_in)
            × (q.reserve_b + out ≡ p.reserve_b)
          ⊎ (token_in ≡ p.pair.token_b)
            × (out ≡ (quote_for p.fee_rate amount_in p.reserve_b p.reserve_a).amount_out)
            × (q.reserve_b ≡ p.reserve_b + amount_in)
            × (q.reserve_a + out ≡ p.reserve_a))
unfolding swap get_swap_quote
swap_exact token_in amount_in min_out out p q h = ground (arith, h)

-- A removal of liquidity that returns takes the amounts it returns out of the reserves and the shares
-- out of the total.
remove_liquidity_exact :
    (now : ℕ) (provider : Address) (shares a b : Amount) (p q : AmmPool)
    → remove_liquidity now provider shares p ≡ (ok (a, b), q)
    → (q.reserve_a + a ≡ p.reserve_a)
      × (q.reserve_b + b ≡ p.reserve_b)
      × (q.total_shares + shares ≡ p.total_shares)
unfolding remove_liquidity
remove_liquidity_exact now provider shares a b p q h = ground (arith, h)
