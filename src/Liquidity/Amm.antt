-- ===== src/Liquidity/Amm.antt =====
-- crates/liquidity/src/amm.rs: a pool of two tokens that quotes swaps by a constant product, in
-- floating point.
pub mod Reserves
mod Tests
use kainotes.Prelude.{
  ℕ, ◌+◌, ◌*◌, ◌%◌, Bool, true, false, ◌||◌, Option, none, some, ltb, ◌==◌, if◌then◌else◌, min,
  u64_mod,
}
use kainotes.Prelude.Result.{Result, ok, err, panic, ok_or}
use kainotes.Prelude.Result.Exec.{Exec, pure, lift, gets, modify, reject_if, ◌>>=◌, ◌>>◌}
use kainotes.Prelude.Float.{F64, of_nat, add, sub, mul, div, sqrt, to_word}
use kainotes.Prelude.Float.Ops.{fmin, fabs}
use kainotes.Core.Types.{
  Address, Amount, is_zero, checked_add, checked_sub, first_digit, first_digit_or,
}
use kainotes.Liquidity.Error.{
  LiquidityError, pool_error, deployment_error, calculation_error, insufficient_liquidity,
  slippage_too_high,
}
use kainotes.Liquidity.Pool.{LiquidityPool, deposit, request_withdrawal}

pub record TradingPair : Type 0 where
  pub token_a : Address
  pub token_b : Address

unfoldable pub canonical : TradingPair → TradingPair
canonical t =
    if ltb t.token_a t.token_b then t else record { token_a = t.token_b; token_b = t.token_a }

pub record AmmPool : Type 0 where
  pub base : LiquidityPool
  pub pair : TradingPair
  pub reserve_a : Amount
  pub reserve_b : Amount
  pub total_shares : Amount
  pub fee_rate : ℕ

abbrev pub AmmExec : Type 0 → Type 0
AmmExec = Exec LiquidityError AmmPool

-- `AMMPool::new`
unfoldable pub new_amm : LiquidityPool → TradingPair → ℕ → AmmPool
unfolding canonical
new_amm base pair fee_rate = record {
  base = base;
  pair = canonical pair;
  reserve_a = 0;
  reserve_b = 0;
  total_shares = 0;
  fee_rate = min fee_rate 10000;
}

unfoldable pub calculate_ratio : Amount → Amount → F64
calculate_ratio numerator denominator =
    if is_zero denominator
    then of_nat 0
    else div (of_nat (first_digit numerator)) (of_nat (first_digit_or 1 denominator))

-- The shares for an addition of liquidity.
unfoldable pub shares_for : Amount → Amount → AmmPool → Amount
unfolding calculate_ratio
shares_for amount_a amount_b p =
    if is_zero p.total_shares
    then to_word u64_mod
        (sqrt (mul (of_nat (first_digit amount_a)) (of_nat (first_digit amount_b))))
    else to_word u64_mod (
        mul (of_nat (first_digit p.total_shares))
          (fmin (calculate_ratio amount_a p.reserve_a) (calculate_ratio amount_b p.reserve_b)))

-- A call of the pool below.
abbrev pub on_base : {A : Type 0} → Exec LiquidityError LiquidityPool A → AmmExec A
on_base m p = let (r, base) = m p.base in (r, record p { base = base })

-- `self.reserve_a = self.reserve_a.checked_add(..)?` and its likes
abbrev pub add_a : Amount → AmmExec Unit
add_a amount = do
  old ← gets λ (p : AmmPool). p.reserve_a
  new ← lift (ok_or (checked_add old amount) calculation_error)
  modify λ (p : AmmPool). record p { reserve_a = new }

abbrev pub add_b : Amount → AmmExec Unit
add_b amount = do
  old ← gets λ (p : AmmPool). p.reserve_b
  new ← lift (ok_or (checked_add old amount) calculation_error)
  modify λ (p : AmmPool). record p { reserve_b = new }

abbrev pub sub_a : Amount → AmmExec Unit
sub_a amount = do
  old ← gets λ (p : AmmPool). p.reserve_a
  new ← lift (ok_or (checked_sub old amount) calculation_error)
  modify λ (p : AmmPool). record p { reserve_a = new }

abbrev pub sub_b : Amount → AmmExec Unit
sub_b amount = do
  old ← gets λ (p : AmmPool). p.reserve_b
  new ← lift (ok_or (checked_sub old amount) calculation_error)
  modify λ (p : AmmPool). record p { reserve_b = new }

unfoldable pub add_liquidity : ℕ → Address → Amount → Amount → AmmExec Amount
unfolding shares_for
add_liquidity now provider amount_a amount_b = do
  reject_if (is_zero amount_a || is_zero amount_b) deployment_error
  shares ← gets (shares_for amount_a amount_b)
  add_a amount_a
  add_b amount_b
  old ← gets λ (p : AmmPool). p.total_shares
  total ← lift (ok_or (checked_add old shares) calculation_error)
  modify λ (p : AmmPool). record p { total_shares = total }
  deposited ← lift (ok_or (checked_add amount_a amount_b) calculation_error)
  on_base (deposit now provider deposited)
  pure shares

-- The part of a reserve that some shares stand for.
unfoldable pub part_of : Amount → Amount → Amount → Amount
unfolding calculate_ratio
part_of reserve shares total_shares =
    to_word u64_mod (mul (of_nat (first_digit reserve)) (calculate_ratio shares total_shares))

unfoldable pub remove_liquidity : ℕ → Address → Amount → AmmExec (Amount × Amount)
unfolding part_of
remove_liquidity now provider shares = do
  reject_if (is_zero shares) deployment_error
  total ← gets λ (p : AmmPool). p.total_shares
  reject_if (ltb total shares) (insufficient_liquidity shares total)
  amount_a ← gets λ (p : AmmPool). part_of p.reserve_a shares p.total_shares
  amount_b ← gets λ (p : AmmPool). part_of p.reserve_b shares p.total_shares
  sub_a amount_a
  sub_b amount_b
  rest ← lift (ok_or (checked_sub total shares) calculation_error)
  modify λ (p : AmmPool). record p { total_shares = rest }
  withdrawn ← lift (ok_or (checked_add amount_a amount_b) calculation_error)
  on_base (request_withdrawal now provider withdrawn ((now + 7 * 24 * 3600) % u64_mod))
  pure (amount_a, amount_b)

pub record SwapQuote : Type 0 where
  pub amount_in : Amount
  pub amount_out : Amount
  pub price_impact : F64
  pub effective_price : F64
  pub fee_amount : Amount

-- The quote for the reserves on the two sides.
unfoldable pub quote_for : ℕ → Amount → Amount → Amount → SwapQuote
quote_for fee_rate amount_in reserve_in reserve_out =
    let dx = of_nat (first_digit amount_in) in
    let x = of_nat (first_digit_or 1 reserve_in) in
    let y = of_nat (first_digit reserve_out) in
    let fee = div (of_nat fee_rate) (of_nat 10000) in
    let dx_with_fee = mul dx (sub (of_nat 1) fee) in
    let dy = div (mul y dx_with_fee) (add x dx_with_fee) in
    let price_before = div y x in
    let price_after = div (sub y dy) (add x dx) in
    record {
      amount_in = amount_in;
      amount_out = to_word u64_mod dy;
      price_impact = mul (fabs (div (sub price_after price_before) price_before)) (of_nat 100);
      effective_price = div dy dx;
      fee_amount = to_word u64_mod (mul dx fee);
    }

unfoldable pub get_swap_quote : Address → Amount → AmmPool → Result LiquidityError SwapQuote
unfolding quote_for
get_swap_quote token_in amount_in p =
    if is_zero amount_in
    then err calculation_error
    else if token_in == p.pair.token_a
    then ok (quote_for p.fee_rate amount_in p.reserve_a p.reserve_b)
    else if token_in == p.pair.token_b
    then ok (quote_for p.fee_rate amount_in p.reserve_b p.reserve_a)
    else err pool_error

-- How far a quote falls short, in percent.
unfoldable pub slippage : Amount → Amount → F64
slippage min_amount_out amount_out =
    mul
      (div (sub (of_nat (first_digit min_amount_out)) (of_nat (first_digit amount_out)))
        (of_nat (first_digit_or 1 min_amount_out)))
      (of_nat 100)

abbrev exchange : Bool → Amount → Amount → AmmExec Unit
exchange a_in amount_in amount_out =
    if a_in then add_a amount_in >> sub_b amount_out else add_b amount_in >> sub_a amount_out

unfoldable pub swap : Address → Amount → Amount → AmmExec Amount
unfolding get_swap_quote slippage
swap token_in amount_in min_amount_out = do
  quoted ← gets (get_swap_quote token_in amount_in)
  quote ← lift quoted
  reject_if (ltb quote.amount_out min_amount_out)
      (slippage_too_high (slippage min_amount_out quote.amount_out))
  a_in ← gets λ (p : AmmPool). token_in == p.pair.token_a
  exchange a_in amount_in quote.amount_out
  pure quote.amount_out
