-- ===== src/Core/Block.antt =====
-- crates/blockchain-core/src/block.rs: a block, its hash, and its validation against its parent.
pub mod Validity
pub mod Uneven
mod Tests
use kainotes.Prelude.{
  ℕ, ◌+◌, ◌%◌, ◌-◌, Bool, true, false, not, ◌&&◌, Option, List, [], ◌∷◌, map, ltb, leb, ◌==◌,
  if◌then◌else◌, sum_of, u64_mod,
}
use kainotes.Prelude.Result.{Result, ok, err, panic, fail_if, ◌>>=◌, ◌>>◌}
use kainotes.Core.Types.{Bytes, Hash, Address, zero_hash, zero_address, hash_bytes}
use kainotes.Core.Error.{
  BlockchainError, CryptoError, crypto_error, invalid_block, invalid_number, parent_hash_mismatch,
  timestamp_not_after_parent, gas_used_exceeds_limit, merkle_root_mismatch, gas_used_mismatch,
}
use kainotes.Core.Transaction
use kainotes.Core.Transaction.{Transaction, Signature, validate_basic, is_empty}
use kainotes.Core.Host.{Host, BlockHeader}
use kainotes.Crypto.Merkle

pub record ValidatorSignature : Type 0 where
  pub validator : Address
  pub signature : Signature
  pub timestamp : ℕ

pub record Block : Type 0 where
  pub header : BlockHeader
  pub transactions : List Transaction
  pub validator_signatures : List ValidatorSignature

-- `Block::number`
abbrev pub block_number : Block → ℕ
block_number b = b.header.number

-- `?` on an error of the crypto crate, by `From<CryptoError>`
abbrev pub from_crypto : {A : Type 0} → Result CryptoError A → Result BlockchainError A
from_crypto (ok a) = ok a
from_crypto (err e) = err (crypto_error e)
from_crypto panic = panic

-- The sum of the gas limits is one of 64-bit words.
unfoldable pub total_gas : List Transaction → ℕ
total_gas txs = sum_of (λ (tx : Transaction). tx.gas_limit) txs % u64_mod

-- the loop that validates the transactions
unfoldable pub validate_all : List Transaction → Result BlockchainError Unit
validate_all [] = ok tt
validate_all (tx ∷ txs) = validate_basic tx >> validate_all txs

-- The test of `is_genesis`.
unfoldable pub is_genesis : Block → Bool
is_genesis b = b.header.number == 0 && b.header.parent_hash == zero_hash

-- the bytes of "Genesis Block"
abbrev pub genesis_text : Bytes
genesis_text =
    b'G' ∷ b'e' ∷ b'n' ∷ b'e' ∷ b's' ∷ b'i' ∷ b's' ∷ b' ' ∷ b'B' ∷ b'l' ∷ b'o' ∷ b'c' ∷ b'k' ∷ []

-- `Block::genesis`
unfoldable pub genesis : Hash → Block
genesis genesis_state_root = record {
  header = record {
    number = 0;
    parent_hash = zero_hash;
    transactions_root = zero_hash;
    state_root = genesis_state_root;
    timestamp = 0;
    proposer = zero_address;
    gas_limit = 10_000_000;
    gas_used = 0;
    extra_data = genesis_text;
  };
  transactions = [];
  validator_signatures = [];
}

module _ (host : Host) where
  -- `BlockHeader::hash`
  unfoldable pub header_hash : BlockHeader → Hash
  header_hash header = host.sha256 (host.serialize_header header)

  -- `Block::hash`
  abbrev pub block_hash : Block → Hash
  block_hash b = header_hash b.header

  -- `Transaction::hash`
  unfoldable pub transaction_hash : Transaction → Hash
  transaction_hash tx = host.sha256 (host.serialize_transaction tx)

  -- `BlockHeader::validate`; the sum is one of 64-bit words
  unfoldable pub validate_header : BlockHeader → BlockHeader → Result BlockchainError Unit
  validate_header header parent = do
    fail_if (not (header.number == (parent.number + 1) % u64_mod)) (invalid_block invalid_number)
    fail_if (not (header.parent_hash == header_hash parent)) (invalid_block parent_hash_mismatch)
    fail_if (leb header.timestamp parent.timestamp) (invalid_block timestamp_not_after_parent)
    fail_if (ltb header.gas_limit header.gas_used) (invalid_block gas_used_exceeds_limit)

  -- the Merkle root over the bytes of the hashes of the transactions
  unfoldable pub transactions_root : List Transaction → Result BlockchainError Hash
  transactions_root txs = do
    tree ← from_crypto (Merkle.new host.sha256 (map (λ tx. hash_bytes (transaction_hash tx)) txs))
    from_crypto (Merkle.root tree)

  -- the part of `validate` on the Merkle root
  unfoldable pub validate_root : Block → Result BlockchainError Unit
  unfolding transactions_root
  validate_root b =
      let check = (do
        computed ← transactions_root b.transactions
        fail_if (not (computed == b.header.transactions_root))
            (invalid_block merkle_root_mismatch)) in
      if is_empty b.transactions then ok tt else check

  -- `Block::validate`
  unfoldable pub validate : Block → Block → Result BlockchainError Unit
  validate b parent = do
    validate_header b.header parent.header
    validate_all b.transactions
    validate_root b
    fail_if (not (total_gas b.transactions == b.header.gas_used)) (invalid_block gas_used_mismatch)

  -- `Block::new`, at the time `now`
  unfoldable pub new :
      ℕ → ℕ → Hash → Hash → Address → List Transaction → ℕ → Result BlockchainError Block
  unfolding transactions_root total_gas
  new now number parent_hash state_root proposer txs gas_limit = do
    tx_root ← (if is_empty txs then ok zero_hash else transactions_root txs)
    ok (record {
      header = record {
        number = number;
        parent_hash = parent_hash;
        transactions_root = tx_root;
        state_root = state_root;
        timestamp = now;
        proposer = proposer;
        gas_limit = gas_limit;
        gas_used = total_gas txs;
        extra_data = [];
      };
      transactions = txs;
      validator_signatures = [];
    })
