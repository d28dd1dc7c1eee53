-- ===== src/Core/Host.antt =====
-- What the program takes from other packages: the SHA-256 of the `sha2` crate, which
-- `Hashable::hash` of crates/blockchain-crypto/src/hash.rs calls, and `bincode::serialize` of the
-- types that it hashes. Nothing is assumed of them.
use kainotes.Core.Types.{Bytes, Hash, Address}
use kainotes.Core.Account.{Account}
use kainotes.Core.Transaction.{Transaction}
use kainotes.Prelude.{ℕ}

pub record BlockHeader : Type 0 where
  pub number : ℕ
  pub parent_hash : Hash
  pub transactions_root : Hash
  pub state_root : Hash
  pub timestamp : ℕ
  pub proposer : Address
  pub gas_limit : ℕ
  pub gas_used : ℕ
  pub extra_data : Bytes

pub record Host : Type 0 where
  pub sha256 : Bytes → Hash
  pub serialize_account : Account → Bytes
  pub serialize_transaction : Transaction → Bytes
  pub serialize_header : BlockHeader → Bytes
