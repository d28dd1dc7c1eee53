-- ===== src/Core/Chain/Execution.antt =====
-- `execute_transaction` of crates/blockchain-core/src/chain.rs as a whole.
use kainotes.Prelude.{
  ◌+◌, ◌*◌, ◌%◌, ◌≤◌, ◌≡◌, refl, sym, ap, ◌≢◌, ◌∙◌, ◌⊎◌, some, arith, u64_mod, ◌==◌, if◌then◌else◌,
  inl, inr, subst,
}
use kainotes.Prelude.Result.{ok, err}
use kainotes.Dict.{lookup, insert}
use kainotes.Dict.Laws.{lookup-insert_self}
use kainotes.Core.Types.{Address}
use kainotes.Core.Error.{BlockchainError, nonce_mismatch}
use kainotes.Core.Transaction.{Transaction, TransactionReceipt, calculate_fee, validate_basic}
use kainotes.Core.World.{
  WorldState, get_account, get_nonce, get_balance, checkpoint, commit, rollback,
}
use kainotes.Core.World.Rollback.{SameAccounts, Edits, start, rollback_restores, commit_keeps}
use kainotes.Core.World.Supply.{supply}
use kainotes.Core.Host.{Host}
use kainotes.Core.Block.{transaction_hash}
use kainotes.Core.Chain.{
  Blockchain, apply_effects, base_gas, execute_transaction_type, execute_transaction, height,
}
use kainotes.Core.Chain.Effects.{apply_effects-IsEdit}
use kainotes.Core.Chain.Fees.{NotToSelf, apply_effects-supply, apply_effects-nonce}

-- The chain with another world state.
abbrev pub with_state : Blockchain → WorldState → Blockchain
with_state c s = record c { state = s }

-- Nothing that a reader of the chain can see has changed, and the journal is as it was.
pub record IsUntouched (c c' : Blockchain) : Type 0 where
  pub accounts : SameAccounts c'.state.accounts c.state.accounts
  pub journal : c'.state.modifications ≡ c.state.modifications
  pub blocks : c'.blocks ≡ c.blocks
  pub index : c'.block_by_number ≡ c.block_by_number
  pub head : c'.head ≡ c.head
  pub genesis : c'.genesis ≡ c.genesis
  pub receipts : c'.receipts ≡ c.receipts

module _ (host : Host) (tx : Transaction) where
  -- A failed run of the type has touched the world state alone.
  type_failed :
      (c c' : Blockchain) (e : BlockchainError)
      → execute_transaction_type host tx c ≡ (err e, c')
      → c' ≡ with_state c (apply_effects tx c.state).1
  unfolding execute_transaction_type height
  type_failed c c' e h = ground arith

  -- What a run of the type has done when it returns.
  record Done (c c' : Blockchain) (r : TransactionReceipt) : Type 0 where
    effects : apply_effects tx c.state ≡ (ok tt, c'.state)
    blocks : c'.blocks ≡ c.blocks
    index : c'.block_by_number ≡ c.block_by_number
    head : c'.head ≡ c.head
    genesis : c'.genesis ≡ c.genesis
    receipts : c'.receipts ≡ insert (transaction_hash host tx) r c.receipts

  type-Done :
      (c c' : Blockchain) (r : TransactionReceipt)
      → execute_transaction_type host tx c ≡ (ok r, c')
      → Done c c' r
  unfolding execute_transaction_type height
  type-Done c c' r h = ground arith

  -- The chain at the checkpoint of an execution.
  abbrev marked : Blockchain → Blockchain
  marked c = with_state c (checkpoint c.state)

  failed_cases :
      (c c' : Blockchain) (e : BlockchainError)
      → execute_transaction host tx c ≡ (err e, c')
      → let (r, d) = execute_transaction_type host tx (marked c) in
        (c' ≡ c) ⊎ (r ≡ err e) × (c' ≡ with_state d (rollback d.state))
  unfolding execute_transaction
  failed_cases c c' e h = ground arith

  done_cases :
      (c c' : Blockchain) (r : TransactionReceipt)
      → execute_transaction host tx c ≡ (ok r, c')
      → let (q, d) = execute_transaction_type host tx (marked c) in
        (q ≡ ok r)
        × (c' ≡ with_state d (commit d.state))
        × (tx.nonce ≡ get_nonce tx.from c.state)
        × (validate_basic tx ≡ ok tt)
        × ((tx.gas_limit * tx.gas_price) % u64_mod ≤ get_balance tx.from c.state)
  unfolding execute_transaction
  done_cases c c' r h = ground arith

  IsUntouched-refl : (c c' : Blockchain) → c' ≡ c → IsUntouched c c'
  IsUntouched-refl c c' e = rw e (record {
    accounts = λ k. refl;
    journal = refl;
    blocks = refl;
    index = refl;
    head = refl;
    genesis = refl;
    receipts = refl;
  })

  rolled_back :
      (c : Blockchain)
      → IsUntouched c (with_state c (rollback (apply_effects tx (checkpoint c.state)).1))
  rolled_back c =
      let (same, journal) =
        rollback_restores c.state (apply_effects tx (checkpoint c.state)).1
          (apply_effects-IsEdit tx (checkpoint c.state) (checkpoint c.state) start) in
      record {
        accounts = same;
        journal = journal;
        blocks = refl;
        index = refl;
        head = refl;
        genesis = refl;
        receipts = refl;
      }

  -- An execution that returns an error leaves every account, the journal, the blocks, their index,
  -- the head, the genesis and the receipts as they were.
  pub execute_failure :
      (c c' : Blockchain) (e : BlockchainError)
      → execute_transaction host tx c ≡ (err e, c')
      → IsUntouched c c'
  execute_failure c c' e h = elim (failed_cases c c' e h) [
    | inl same ↦ IsUntouched-refl c c' same
    | inr (failed, back) ↦
        let d = (execute_transaction_type host tx (marked c)).1 in
        let d_is : d ≡ with_state (marked c) (apply_effects tx (checkpoint c.state)).1 =
          type_failed (marked c) d e (λ i. (failed i, d)) in
        subst (IsUntouched c) (sym (back ∙ ap (λ x. with_state x (rollback x.state)) d_is))
          (rolled_back c)
  ]

  -- What holds after an execution that returned a receipt.
  pub record IsExecuted (c c' : Blockchain) (r : TransactionReceipt) : Type 0 where
    pub valid : validate_basic tx ≡ ok tt
    pub in_order : tx.nonce ≡ get_nonce tx.from c.state
    pub gas_covered : (tx.gas_limit * tx.gas_price) % u64_mod ≤ get_balance tx.from c.state
    pub nonce :
        (k : Address)
        → get_nonce k c'.state ≡ (
            if tx.from == k then (get_nonce tx.from c.state + 1) % u64_mod else get_nonce k c.state)
    pub journal : c'.state.modifications ≡ c.state.modifications
    pub blocks : c'.blocks ≡ c.blocks
    pub index : c'.block_by_number ≡ c.block_by_number
    pub head : c'.head ≡ c.head
    pub genesis : c'.genesis ≡ c.genesis
    pub stored : lookup (transaction_hash host tx) c'.receipts ≡ some r

  nonce_marked :
      (k : Address) (s t : WorldState)
      → apply_effects tx (checkpoint s) ≡ (ok tt, t)
      → get_nonce k (commit t)
        ≡ (if tx.from == k then (get_nonce tx.from s + 1) % u64_mod else get_nonce k s)
  unfolding commit checkpoint get_account get_nonce
  nonce_marked k s t h = ground (arith, apply_effects-nonce tx k (checkpoint s) t h)

  supply_marked :
      (s t : WorldState)
      → apply_effects tx (checkpoint s) ≡ (ok tt, t)
      → NotToSelf tx.from tx.tx_type
      → supply (commit t) + calculate_fee tx base_gas ≡ supply s
  unfolding commit checkpoint
  supply_marked s t h n = apply_effects-supply tx (checkpoint s) t n h

  journal_marked :
      (s t : WorldState)
      → apply_effects tx (checkpoint s) ≡ (ok tt, t)
      → (commit t).modifications ≡ s.modifications
  journal_marked s t h =
      (commit_keeps s t (
        subst (Edits (checkpoint s)) (ap (λ x. x.1) h)
          (apply_effects-IsEdit tx (checkpoint s) (checkpoint s) start))).1

  after_commit :
      (c d : Blockchain) (r : TransactionReceipt)
      → Done (marked c) d r
      → validate_basic tx ≡ ok tt
      → tx.nonce ≡ get_nonce tx.from c.state
      → (tx.gas_limit * tx.gas_price) % u64_mod ≤ get_balance tx.from c.state
      → IsExecuted c (with_state d (commit d.state)) r
  after_commit c d r q valid in_order covered = record {
    valid = valid;
    in_order = in_order;
    gas_covered = covered;
    nonce = λ k. nonce_marked k c.state d.state q.effects;
    journal = journal_marked c.state d.state q.effects;
    blocks = q.blocks;
    index = q.index;
    head = q.head;
    genesis = q.genesis;
    stored = rw q.receipts (lookup-insert_self (transaction_hash host tx) r c.receipts);
  }

  -- An execution that returns a receipt had a transaction that passes `validate_basic`, with the
  -- sender's nonce, and a sender whose balance is at least the gas limit times the gas price, as a
  -- 64-bit word that may have wrapped around. It raises the sender's nonce by one, as a 64-bit word,
  -- and no other nonce, leaves the journal as it was, keeps the blocks, their index, the head and the
  -- genesis, and stores the receipt under the hash of the transaction.
  pub execute_success :
      (c c' : Blockchain) (r : TransactionReceipt)
      → execute_transaction host tx c ≡ (ok r, c')
      → IsExecuted c c' r
  execute_success c c' r h =
      let (returned, committed, in_order, valid, covered) = done_cases c c' r h in
      let d = (execute_transaction_type host tx (marked c)).1 in
      let q : Done (marked c) d r = type-Done (marked c) d r (λ i. (returned i, d)) in
      subst (λ x. IsExecuted c x r) (sym committed) (after_commit c d r q valid in_order covered)

  -- An execution that returns a receipt, of anything but a transfer of an address to itself, takes
  -- the fee that `calculate_fee` gives for the gas that the code fixes out of the sum of all balances
  -- and stakes, and leaves the rest of that sum.
  pub execute_takes_fee :
      (c c' : Blockchain) (r : TransactionReceipt)
      → NotToSelf tx.from tx.tx_type
      → execute_transaction host tx c ≡ (ok r, c')
      → supply c'.state + calculate_fee tx base_gas ≡ supply c.state
  execute_takes_fee c c' r n h =
      let (returned, committed, in_order, valid, covered) = done_cases c c' r h in
      let d = (execute_transaction_type host tx (marked c)).1 in
      let q : Done (marked c) d r = type-Done (marked c) d r (λ i. (returned i, d)) in
      subst (λ (x : Blockchain). supply x.state + calculate_fee tx base_gas ≡ supply c.state)
        (sym committed) (supply_marked c.state d.state q.effects n)

  wrong_nonce :
      (c : Blockchain)
      → validate_basic tx ≡ ok tt
      → tx.nonce ≢ get_nonce tx.from c.state
      → execute_transaction host tx c ≡ (err nonce_mismatch, c)
  unfolding execute_transaction
  wrong_nonce c valid h = ground arith

  -- A transaction that was executed cannot be executed again on the chain that it left: the second
  -- execution returns the error for a wrong nonce and changes nothing.
  pub no_replay :
      (c c' : Blockchain) (r : TransactionReceipt)
      → execute_transaction host tx c ≡ (ok r, c')
      → execute_transaction host tx c' ≡ (err nonce_mismatch, c')
  no_replay c c' r h =
      let e = execute_success c c' r h in
      wrong_nonce c' e.valid λ same. ground (arith, e.in_order, e.nonce tx.from, same)
