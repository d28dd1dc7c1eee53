-- ===== src/Core/Chain/Tests.antt =====
-- Runs of the chain, and the theorems of its modules at concrete chains.
use kainotes.Prelude.{◌≡◌, refl, ◌≢◌, [], ◌∷◌, arith, ◌+◌}
use kainotes.Prelude.Result.{ok, err}
use kainotes.Dict.{lookup, insert}
use kainotes.Dict.Sorted.{sort_by_key}
use kainotes.Core.Types.{address_bytes}
use kainotes.Core.Error.{
  insufficient_balance, nonce_mismatch, invalid_block, state_root_mismatch_after_execution,
  block_not_found,
}
use kainotes.Core.Transaction.{
  Transaction, TransactionType, TransactionReceipt, validate_basic, validate_type, calculate_fee,
  recipient,
}
use kainotes.Core.Account
use kainotes.Core.World
use kainotes.Core.World.{WorldState}
use kainotes.Core.Samples.{sample_host, holding, signed}
use kainotes.Core.Block.{Block, header_hash, transaction_hash}
use kainotes.Core.Chain.{
  Blockchain, add_block, execute_transaction, execute_transaction_type, execute_all,
  add_block_with_execution, apply_effects, run_type, get_block, head_block, height, receipt_of,
  verify_chain,
}
use kainotes.Core.Chain.Samples.{start_chain, next_block, next_chain, next_is_added, next-Grown}
use kainotes.Core.Chain.Execution.{
  with_state, IsUntouched, IsExecuted, execute_failure, execute_success, execute_takes_fee,
  no_replay,
}
use kainotes.Core.World.Supply.{supply}
use kainotes.Core.Chain.Blocks.{mismatch_keeps_transactions}
use kainotes.Core.Chain.Index.{IsAdded, add_block-IsAdded, add_block_failure}
use kainotes.Core.Chain.Growth.{Grown-verifies}

add_block-IsAdded_example : IsAdded sample_host next_block start_chain next_chain
add_block-IsAdded_example =
    add_block-IsAdded sample_host next_block start_chain next_chain next_is_added

Grown-verifies_example : (verify_chain sample_host next_chain ≡ ok tt) × (height next_chain ≡ ok 1)
Grown-verifies_example = Grown-verifies sample_host next_chain 1 next-Grown

-- A block whose parent is not known.
abbrev orphan : Block
orphan = record next_block { header = record (next_block.header) { parent_hash = 77 } }

orphan_fails : (add_block sample_host orphan start_chain).0 ≡ err (block_not_found 77)
unfolding add_block get_block lookup header_hash
orphan_fails = refl

add_block_failure_example : (add_block sample_host orphan start_chain).1 ≡ start_chain
add_block_failure_example =
    add_block_failure sample_host orphan start_chain λ e. ground (arith, orphan_fails, e)

-- The chain with a sender who can pay.
abbrev funded : Blockchain
funded =
    with_state start_chain (record { accounts = (4, holding 100000 0) ∷ []; modifications = [] })

abbrev payment : Transaction
payment = signed 4 0 (TransactionType.transfer 8 300)

abbrev paid : Blockchain
paid = (execute_transaction sample_host payment funded).1

abbrev payment_receipt : TransactionReceipt
payment_receipt = receipt_of sample_host payment 1

payment_is_executed : execute_transaction sample_host payment funded ≡ (ok payment_receipt, paid)
unfolding execute_transaction execute_transaction_type apply_effects run_type head_block height
    lookup insert validate_basic validate_type calculate_fee recipient World.get_nonce
    World.get_balance World.checkpoint World.commit World.with_account World.transfer
    World.get_account World.set_account World.record_account_modification World.is_recorded
    World.drop_transaction Account.increment_nonce Account.sub_balance Account.add_balance
    header_hash transaction_hash
payment_is_executed = refl

execute_success_example : IsExecuted sample_host payment funded paid payment_receipt
execute_success_example =
    execute_success sample_host payment funded paid payment_receipt payment_is_executed

execute_takes_fee_example : supply paid.state + 42000 ≡ 100000
unfolding calculate_fee
execute_takes_fee_example =
    execute_takes_fee sample_host payment funded paid payment_receipt
      (λ e. absurd (omega (arith, e))) payment_is_executed

no_replay_example : execute_transaction sample_host payment paid ≡ (err nonce_mismatch, paid)
no_replay_example = no_replay sample_host payment funded paid payment_receipt payment_is_executed

-- A payment of more than the sender has, though the gas is covered.
abbrev too_much : Transaction
too_much = signed 4 0 (TransactionType.transfer 8 300000)

abbrev refused : Blockchain
refused = (execute_transaction sample_host too_much funded).1

too_much_is_refused :
    execute_transaction sample_host too_much funded ≡ (err insufficient_balance, refused)
unfolding execute_transaction execute_transaction_type apply_effects run_type lookup insert
    validate_basic validate_type World.get_nonce World.get_balance World.checkpoint World.rollback
    World.with_account World.transfer World.get_account World.record_account_modification
    World.is_recorded World.drop_transaction World.undo Account.increment_nonce
too_much_is_refused = refl

execute_failure_example : IsUntouched funded refused
execute_failure_example =
    execute_failure sample_host too_much funded refused insufficient_balance too_much_is_refused

-- A block with the payment and a wrong state root.
abbrev wrong_root : Block
wrong_root = record next_block { transactions = payment ∷ [] }

abbrev after_payment : Blockchain
after_payment = (execute_all sample_host (payment ∷ []) funded).1

payments_run : execute_all sample_host (payment ∷ []) funded ≡ (ok tt, after_payment)
unfolding execute_transaction execute_transaction_type apply_effects run_type head_block height
    lookup insert validate_basic validate_type calculate_fee recipient World.get_nonce
    World.get_balance World.checkpoint World.commit World.with_account World.transfer
    World.get_account World.set_account World.record_account_modification World.is_recorded
    World.drop_transaction Account.increment_nonce Account.sub_balance Account.add_balance
    header_hash transaction_hash execute_all
payments_run = refl

root_differs : 0 ≢ World.state_root sample_host after_payment.state
unfolding execute_transaction execute_transaction_type apply_effects run_type head_block height
    lookup insert validate_basic validate_type calculate_fee recipient World.get_nonce
    World.get_balance World.checkpoint World.commit World.with_account World.transfer
    World.get_account World.set_account World.record_account_modification World.is_recorded
    World.drop_transaction Account.increment_nonce Account.sub_balance Account.add_balance
    header_hash transaction_hash execute_all World.state_root World.combined sort_by_key
    address_bytes
root_differs e = omega (arith, e)

mismatch_keeps_transactions_example :
    add_block_with_execution sample_host wrong_root funded
    ≡ (err (invalid_block state_root_mismatch_after_execution), after_payment)
mismatch_keeps_transactions_example =
    mismatch_keeps_transactions sample_host wrong_root funded after_payment refl payments_run
      root_differs
