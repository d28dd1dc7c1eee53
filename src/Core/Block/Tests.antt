-- ===== src/Core/Block/Tests.antt =====
-- Runs of the validation of blocks, and its theorems at concrete blocks.
use kainotes.Prelude.{◌≡◌, refl, ◌↔◌, ◌≤◌, [], ◌∷◌, arith}
use kainotes.Prelude.Result.{Result, ok, err, panic}
use kainotes.Core.Error.{BlockchainError}
use kainotes.Core.Samples.{sample_host, signed}
use kainotes.Core.Transaction.{Transaction, TransactionType, validate_basic, validate_type}
use kainotes.Core.Block
use kainotes.Core.Block.{
  Block, genesis, header_hash, validate, validate_all, total_gas, transactions_root,
  transaction_hash,
}
use kainotes.Core.Block.Validity.{IsChild, validate_lem, new_validates}
use kainotes.Core.Types.{hash_bytes}
use kainotes.Crypto.Merkle
use kainotes.Crypto.Merkle.Power.{next_power_of_two}

abbrev parent : Block
parent = genesis 6

abbrev tx : Transaction
tx = signed 4 0 (TransactionType.stake 10)

abbrev child : Block
child = record parent {
  header = record (parent.header) {
    number = 1;
    parent_hash = header_hash sample_host parent.header;
    timestamp = 8;
  };
}

validate_lem_example :
    (validate sample_host child parent ≡ ok tt) ↔ IsChild sample_host child parent
validate_lem_example = validate_lem sample_host child parent

-- Two transactions, at time 12, on the genesis.
abbrev built : Result BlockchainError Block
built = Block.new sample_host 12 1 (header_hash sample_host parent.header) 5 3 (tx ∷ tx ∷ []) 100000

abbrev built_block : Block
built_block = elim built [ ok b ↦ b | err e ↦ parent | panic ↦ parent ]

built_is : built ≡ ok built_block
unfolding Block.new transactions_root transaction_hash total_gas header_hash hash_bytes Merkle.new
    Merkle.total_nodes next_power_of_two Merkle.plant Merkle.leaf_start Merkle.root
built_is = refl

both_are_valid : validate_all (tx ∷ tx ∷ []) ≡ ok tt
unfolding validate_all validate_basic validate_type
both_are_valid = refl

gas_is_small : total_gas (tx ∷ tx ∷ []) ≤ 100000
unfolding total_gas
gas_is_small = omega arith

new_validates_example : validate sample_host built_block parent ≡ ok tt
unfolding genesis
new_validates_example =
    new_validates sample_host 12 parent 5 3 (tx ∷ tx ∷ []) 100000 built_block (omega arith)
      both_are_valid gas_is_small built_is
