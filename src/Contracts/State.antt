-- ===== src/Contracts/State.antt =====
-- crates/smart-contracts/src/state.rs: the contracts, their storage, and the balances and nonces of
-- the contract engine. A 32-byte slot or value is the number of its bytes.
pub mod Transfer
pub mod Deployment
mod Tests
use kainotes.Prelude.{
  ℕ, zero, suc, ◌+◌, ◌*◌, ◌/◌, ◌%◌, ◌^◌, Bool, true, false, not, Option, none, some, List, [], ◌∷◌,
  ◌++◌, length, ltb, if◌then◌else◌, u64_mod,
}
use kainotes.Prelude.Result.{Result, ok, err, panic, ok_or}
use kainotes.Prelude.Result.Exec.{Exec, lift, gets, modify, reject_if, ◌>>=◌, ◌>>◌}
use kainotes.Dict.{Dict, lookup, insert, contains}
use kainotes.Core.Types.{
  Bytes, Hash, Address, Amount, zero_hash, address_bytes, hash_bytes, checked_add, checked_sub,
}
use kainotes.Core.Transaction.{is_empty}
use kainotes.Contracts.Gas.{ContractError, deployment_failed, execution_error, state_error}

pub record ContractAccount : Type 0 where
  pub address : Address
  pub code : Bytes
  pub code_hash : Hash
  pub balance : Amount
  pub storage_root : Hash
  pub nonce : ℕ

pub record EvmState : Type 0 where
  pub contracts : Dict ContractAccount
  pub storage : Dict (Dict ℕ)
  pub balances : Dict Amount
  pub nonces : Dict ℕ

abbrev pub EvmExec : Type 0 → Type 0
EvmExec = Exec ContractError EvmState

-- `EVMState::new`
unfoldable pub new : EvmState
new = record { contracts = []; storage = []; balances = []; nonces = [] }

-- `EVMState::clear`
unfoldable pub clear : EvmState → EvmState
unfolding new
clear s = new

unfoldable pub has_code : ContractAccount → Bool
has_code a = not (is_empty a.code)

unfoldable pub code_size : ContractAccount → ℕ
code_size a = length a.code

unfoldable pub get_contract : Address → EvmState → Option ContractAccount
get_contract address s = lookup address s.contracts

unfoldable pub get_code : Address → EvmState → Option Bytes
get_code address s = elim (lookup address s.contracts) [ none ↦ none | some c ↦ some c.code ]

unfoldable pub get_code_hash : Address → EvmState → Hash
get_code_hash address s = elim (lookup address s.contracts) [
  | none ↦ zero_hash
  | some c ↦ c.code_hash
]

unfoldable pub get_code_size : Address → EvmState → ℕ
unfolding code_size
get_code_size address s = elim (lookup address s.contracts) [ none ↦ 0 | some c ↦ code_size c ]

unfoldable pub is_contract : Address → EvmState → Bool
unfolding contains
is_contract address s = contains address s.contracts

abbrev pub or_none : Option (Dict ℕ) → Dict ℕ
or_none none = []
or_none (some d) = d

abbrev pub or_zero : Option ℕ → ℕ
or_zero none = 0
or_zero (some n) = n

unfoldable pub get_storage : Address → ℕ → EvmState → ℕ
get_storage address slot s = elim (lookup address s.storage) [
  | none ↦ 0
  | some d ↦ or_zero (lookup slot d)
]

unfoldable pub set_storage : Address → ℕ → ℕ → EvmState → EvmState
set_storage address slot value s = record s {
  storage = insert address (insert slot value (or_none (lookup address s.storage))) s.storage;
}

unfoldable pub get_balance : Address → EvmState → Amount
get_balance address s = or_zero (lookup address s.balances)

unfoldable pub set_balance : Address → Amount → EvmState → EvmState
set_balance address balance s = record s { balances = insert address balance s.balances }

unfoldable pub transfer : Address → Address → Amount → EvmExec Unit
transfer from to amount = do
  from_balance ← gets (get_balance from)
  reject_if (ltb from_balance amount) execution_error
  new_from_balance ← lift (ok_or (checked_sub from_balance amount) state_error)
  to_balance ← gets (get_balance to)
  new_to_balance ← lift (ok_or (checked_add to_balance amount) state_error)
  modify (set_balance from new_from_balance)
  modify (set_balance to new_to_balance)

unfoldable pub get_nonce : Address → EvmState → ℕ
get_nonce address s = or_zero (lookup address s.nonces)

unfoldable pub increment_nonce : Address → EvmState → EvmState
unfolding get_nonce
increment_nonce address s = record s {
  nonces = insert address ((get_nonce address s + 1) % u64_mod) s.nonces;
}

-- The last 20 of the 32 bytes of a hash, as an address.
abbrev pub last_20 : Hash → Address
last_20 h = h % 2 ^ 160

-- `to_le_bytes` of a 64-bit word: the first `n` bytes, the least significant first
abbrev pub le_bytes : ℕ → ℕ → Bytes
le_bytes zero h = []
le_bytes (suc n) h = h % 256 ∷ le_bytes n (h / 256)

-- The digest is external.
module _ (sha256 : Bytes → Hash) where
  -- `ContractAccount::new`
  unfoldable pub new_contract : Address → Bytes → Amount → ContractAccount
  new_contract address code balance = record {
    address = address;
    code = code;
    code_hash = sha256 code;
    balance = balance;
    storage_root = zero_hash;
    nonce = 1;
  }

  unfoldable pub deploy_contract : Address → Bytes → Amount → EvmExec Unit
  unfolding contains
  deploy_contract address code balance = do
    exists ← gets λ (s : EvmState). contains address s.contracts
    reject_if exists deployment_failed
    modify λ (s : EvmState). record s {
      contracts = insert address (new_contract address code balance) s.contracts;
    }
    modify λ (s : EvmState). record s { balances = insert address balance s.balances }
    modify λ (s : EvmState). record s { storage = insert address [] s.storage }

  unfoldable pub calculate_create_address : Address → ℕ → Address
  calculate_create_address deployer nonce =
      last_20 (sha256 (address_bytes deployer ++ le_bytes 8 nonce))

  unfoldable pub calculate_create2_address : Address → ℕ → Hash → Address
  calculate_create2_address deployer salt init_code_hash =
      last_20
        (sha256 ((255 ∷ address_bytes deployer) ++ hash_bytes salt ++ hash_bytes init_code_hash))
