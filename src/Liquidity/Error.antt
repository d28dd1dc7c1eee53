-- ===== src/Liquidity/Error.antt =====
-- crates/liquidity/src/lib.rs: the errors of the pools, without their messages.
use kainotes.Prelude.{ℕ}
use kainotes.Prelude.Float.{F64}
use kainotes.Core.Types.{Amount}

pub data LiquidityError : Type 0 where
  pool_error deployment_error risk_error : LiquidityError
  insufficient_liquidity : Amount → Amount → LiquidityError
  pool_not_found : ℕ → LiquidityError
  invalid_allocation : LiquidityError
  slippage_too_high : F64 → LiquidityError
  position_not_found calculation_error : LiquidityError
