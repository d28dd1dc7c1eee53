-- ===== src/Core/Chain/Blocks.antt =====
-- `add_block_with_execution` of crates/blockchain-core/src/chain.rs, on a wrong state root.
use kainotes.Prelude.{◌≡◌, sym, ap, ◌≢◌, ◌∙◌, List, [], ◌∷◌, arith}
use kainotes.Prelude.Result.{ok, err}
use kainotes.Prelude.Result.Exec.{bind-eq-ok}
use kainotes.Core.Error.{invalid_block, state_root_mismatch_after_execution}
use kainotes.Core.Transaction.{Transaction}
use kainotes.Core.World.{state_root, rollback, undo, drop_transaction}
use kainotes.Core.Host.{Host}
use kainotes.Core.Block.{Block}
use kainotes.Core.Chain.{
  Blockchain, execute_transaction, execute_all, add_block_with_execution, store_receipt,
}
use kainotes.Core.Chain.Execution.{execute_success, with_state}

module _ (host : Host) where
  execute_all-journal :
      (txs : List Transaction) (c c' : Blockchain)
      → execute_all host txs c ≡ (ok tt, c')
      → c'.state.modifications ≡ c.state.modifications
  unfolding execute_all
  execute_all-journal [] c c' h = ap (λ x. x.1.state.modifications) (sym h)
  execute_all-journal (tx ∷ txs) c c' h =
      let (r, d, executed, rest) = bind-eq-ok (execute_transaction host tx) _ c c' tt h in
      execute_all-journal txs (store_receipt host tx r d) c' rest
      ∙ (execute_success host tx c d r executed).journal

  rollback_empty :
      (c : Blockchain) → c.state.modifications ≡ [] → with_state c (rollback c.state) ≡ c
  unfolding rollback undo drop_transaction
  rollback_empty c h =
      (λ i.
        with_state c (record {
          accounts = undo (h i) c.state.accounts;
          modifications = drop_transaction (h i);
        }))
      ∙ (λ i. with_state c (record { accounts = c.state.accounts; modifications = sym h i }))

  -- From an empty journal, a block whose transactions all execute but whose state root is not the
  -- root they lead to is refused with an error, and all that its transactions did stays: the chain
  -- that is left is the one after their execution.
  pub mismatch_keeps_transactions :
      (block : Block) (c d : Blockchain)
      → c.state.modifications ≡ []
      → execute_all host block.transactions c ≡ (ok tt, d)
      → block.header.state_root ≢ state_root host d.state
      → add_block_with_execution host block c
        ≡ (err (invalid_block state_root_mismatch_after_execution), d)
  unfolding add_block_with_execution
  mismatch_keeps_transactions block c d journal run differs =
      let back = rollback_empty d (execute_all-journal block.transactions c d run ∙ journal) in
      ground (arith, run, back)
