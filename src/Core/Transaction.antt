-- ===== src/Core/Transaction.antt =====
-- crates/blockchain-core/src/transaction.rs
use kainotes.Prelude.{
  ℕ, ◌*◌, ◌%◌, Bool, true, false, Option, none, some, List, [], ◌∷◌, ◌==◌, u64_mod,
}
use kainotes.Prelude.Result.{Result, fail_if, ◌>>◌}
use kainotes.Core.Types.{Bytes, Hash, Address, Amount, is_zero}
use kainotes.Core.Error.{
  BlockchainError, invalid_transaction, missing_signature, zero_gas_limit, zero_gas_price,
  zero_transfer, zero_stake, zero_unstake, zero_liquidity, zero_withdrawal, empty_bytecode,
  empty_call_data,
}

pub data SignatureScheme : Type 0 where
  ed25519 secp256k1 : SignatureScheme

pub record Signature : Type 0 where
  pub scheme : SignatureScheme
  pub bytes : Bytes

pub data TransactionType : Type 0 where
  transfer : Address → Amount → TransactionType
  stake : Amount → TransactionType
  unstake : Amount → TransactionType
  deploy_liquidity : ℕ → Amount → TransactionType
  withdraw_liquidity : ℕ → Amount → TransactionType
  contract_deployment : Bytes → Bytes → TransactionType
  contract_call : Address → Bytes → TransactionType

pub record Transaction : Type 0 where
  pub from : Address
  pub nonce : ℕ
  pub tx_type : TransactionType
  pub gas_price : ℕ
  pub gas_limit : ℕ
  pub timestamp : ℕ
  pub signature : Option Signature

-- `Transaction::new`, at the time `now`
unfoldable pub new : ℕ → Address → ℕ → TransactionType → ℕ → ℕ → Transaction
new now from nonce tx_type gas_price gas_limit = record {
  from = from;
  nonce = nonce;
  tx_type = tx_type;
  gas_price = gas_price;
  gas_limit = gas_limit;
  timestamp = now;
  signature = none;
}

-- The product is one of 64-bit words.
unfoldable pub calculate_fee : Transaction → ℕ → Amount
calculate_fee tx gas_used = (gas_used * tx.gas_price) % u64_mod

abbrev pub is_none {ℓ} : {A : Type ℓ} → Option A → Bool
is_none none = true
is_none (some a) = false

abbrev pub is_empty {ℓ} : {A : Type ℓ} → List A → Bool
is_empty [] = true
is_empty (x ∷ xs) = false

-- the `match` on the type in `validate_basic`
unfoldable pub validate_type : TransactionType → Result BlockchainError Unit
validate_type (transfer to amount) = fail_if (is_zero amount) (invalid_transaction zero_transfer)
validate_type (stake amount) = fail_if (is_zero amount) (invalid_transaction zero_stake)
validate_type (unstake amount) = fail_if (is_zero amount) (invalid_transaction zero_unstake)
validate_type (deploy_liquidity pool amount) =
    fail_if (is_zero amount) (invalid_transaction zero_liquidity)
validate_type (withdraw_liquidity pool amount) =
    fail_if (is_zero amount) (invalid_transaction zero_withdrawal)
validate_type (contract_deployment bytecode args) =
    fail_if (is_empty bytecode) (invalid_transaction empty_bytecode)
validate_type (contract_call contract input) =
    fail_if (is_empty input) (invalid_transaction empty_call_data)

unfoldable pub validate_basic : Transaction → Result BlockchainError Unit
unfolding validate_type
validate_basic tx = do
  fail_if (is_none tx.signature) (invalid_transaction missing_signature)
  fail_if (tx.gas_limit == 0) (invalid_transaction zero_gas_limit)
  fail_if (tx.gas_price == 0) (invalid_transaction zero_gas_price)
  validate_type tx.tx_type

unfoldable pub recipient : Transaction → Option Address
recipient tx = elim tx.tx_type [
  | transfer to amount ↦ some to
  | contract_call contract input ↦ some contract
  | _ ↦ none
]

unfoldable pub value : Transaction → Amount
value tx = elim tx.tx_type [
  | transfer to amount ↦ amount
  | stake amount ↦ amount
  | unstake amount ↦ amount
  | deploy_liquidity pool amount ↦ amount
  | withdraw_liquidity pool amount ↦ amount
  | _ ↦ 0
]

pub data ExecutionStatus : Type 0 where
  success failed reverted : ExecutionStatus

pub record Log : Type 0 where
  pub address : Address
  pub topics : List Hash
  pub bytes : Bytes

pub record TransactionReceipt : Type 0 where
  pub tx_hash : Hash
  pub block_number : ℕ
  pub from : Address
  pub to : Option Address
  pub gas_used : ℕ
  pub status : ExecutionStatus
  pub contract_address : Option Address
  pub logs : List Log
