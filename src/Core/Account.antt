-- ===== src/Core/Account.antt =====
-- `Account` of crates/blockchain-core/src/state.rs: the balance, the stake and the liquidity of one
-- address.
use kainotes.Prelude.{ℕ, ◌+◌, ◌%◌, Bool, not, Option, none, ltb, u64_mod}
use kainotes.Prelude.Result.{ok_or, unwrap}
use kainotes.Prelude.Result.Exec.{Exec, lift, gets, modify, reject_if, ◌>>=◌, ◌>>◌}
use kainotes.Core.Types.{Hash, Amount, is_zero, checked_add, checked_sub}
use kainotes.Core.Error.{
  BlockchainError, state_error, insufficient_balance, balance_overflow, stake_overflow,
  insufficient_stake, liquidity_over_stake, liquidity_overflow, insufficient_liquidity,
}
use kainotes.Core.Transaction.{is_none}

pub record Account : Type 0 where
  pub nonce : ℕ
  pub balance : Amount
  pub staked : Amount
  pub liquidity_deployed : Amount
  pub utility_score : ℕ
  pub code_hash : Option Hash
  pub storage_root : Option Hash

-- `Account::new`
abbrev pub empty_account : Account
empty_account = record {
  nonce = 0;
  balance = 0;
  staked = 0;
  liquidity_deployed = 0;
  utility_score = 0;
  code_hash = none;
  storage_root = none;
}

unfoldable pub with_balance : Amount → Account
with_balance balance = record empty_account { balance = balance }

unfoldable pub is_validator : Account → Bool
is_validator a = not (is_zero a.staked)

unfoldable pub is_contract : Account → Bool
is_contract a = not (is_none a.code_hash)

abbrev pub AccountExec : Type 0
AccountExec = Exec BlockchainError Account Unit

-- The counter is a 64-bit word.
unfoldable pub increment_nonce : AccountExec
increment_nonce = modify λ (a : Account). record a { nonce = (a.nonce + 1) % u64_mod }

unfoldable pub add_balance : Amount → AccountExec
add_balance amount = do
  balance ← gets λ a. a.balance
  sum ← lift (ok_or (checked_add balance amount) (state_error balance_overflow))
  modify λ a. record a { balance = sum }

unfoldable pub sub_balance : Amount → AccountExec
sub_balance amount = do
  balance ← gets λ a. a.balance
  difference ← lift (ok_or (checked_sub balance amount) insufficient_balance)
  modify λ a. record a { balance = difference }

unfoldable pub stake : Amount → AccountExec
unfolding sub_balance
stake amount = do
  sub_balance amount
  staked ← gets λ a. a.staked
  sum ← lift (ok_or (checked_add staked amount) (state_error stake_overflow))
  modify λ a. record a { staked = sum }

unfoldable pub unstake : Amount → AccountExec
unfolding add_balance
unstake amount = do
  staked ← gets λ a. a.staked
  reject_if (ltb staked amount) (state_error insufficient_stake)
  difference ← lift (unwrap (checked_sub staked amount))
  modify λ a. record a { staked = difference }
  add_balance amount

unfoldable pub deploy_liquidity : Amount → AccountExec
deploy_liquidity amount = do
  staked ← gets λ a. a.staked
  reject_if (ltb staked amount) (state_error liquidity_over_stake)
  deployed ← gets λ a. a.liquidity_deployed
  sum ← lift (ok_or (checked_add deployed amount) (state_error liquidity_overflow))
  modify λ a. record a { liquidity_deployed = sum }

unfoldable pub withdraw_liquidity : Amount → AccountExec
withdraw_liquidity amount = do
  deployed ← gets λ a. a.liquidity_deployed
  difference ← lift (ok_or (checked_sub deployed amount) (state_error insufficient_liquidity))
  modify λ a. record a { liquidity_deployed = difference }
