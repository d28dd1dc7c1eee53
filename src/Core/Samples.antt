-- ===== src/Core/Samples.antt =====
-- Test data that the test modules of the core share: a host whose functions are easy to follow.
use kainotes.Prelude.{ℕ, ◌+◌, ◌*◌, some, [], ◌∷◌}
use kainotes.Core.Types.{Bytes, Hash}
use kainotes.Core.Transaction.{Transaction, TransactionType, ed25519}
use kainotes.Core.Account.{Account, empty_account}
use kainotes.Core.Host.{Host}

-- A digest that adds up, and one byte for each number.
abbrev pub weigh : Bytes → Hash
weigh [] = 1
weigh (b ∷ bs) = b + 3 * weigh bs

abbrev pub sample_host : Host
sample_host = record {
  sha256 = weigh;
  serialize_account = λ a. a.nonce ∷ a.balance ∷ a.staked ∷ [];
  serialize_transaction = λ tx. tx.from ∷ tx.nonce ∷ tx.gas_price ∷ [];
  serialize_header = λ h. h.number ∷ h.timestamp ∷ [];
}

abbrev pub holding : ℕ → ℕ → Account
holding balance staked = record empty_account { balance = balance; staked = staked }

abbrev pub signed : ℕ → ℕ → TransactionType → Transaction
signed from nonce tx_type = record {
  from = from;
  nonce = nonce;
  tx_type = tx_type;
  gas_price = 2;
  gas_limit = 30000;
  timestamp = 5;
  signature = some (record { scheme = ed25519; bytes = 7 ∷ [] });
}
