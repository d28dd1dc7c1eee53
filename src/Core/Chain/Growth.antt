-- ===== src/Core/Chain/Growth.antt =====
-- The chains that grow from a genesis block at their head, crates/blockchain-core/src/chain.rs.
use kainotes.Prelude.{
  ℕ, zero, suc, ◌+◌, ◌-◌, ◌≤◌, ◌<◌, ◌≡◌, refl, sym, subst, none, arith, length, min, List, u64_mod,
}
use kainotes.Prelude.Result.{ok, err}
use kainotes.Dict.{lookup}
use kainotes.Core.Error.{BlockchainError}
use kainotes.Core.Transaction.{Transaction, TransactionReceipt}
use kainotes.Core.Host.{Host}
use kainotes.Core.Block.{Block, block_hash}
use kainotes.Core.Chain
use kainotes.Core.Chain.{
  Blockchain, link, add_block, execute_transaction, get_block_by_number, and_get, head_block,
  genesis_block, height, verify_from, verify_chain, collect_blocks, get_block_range,
  get_recent_blocks,
}
use kainotes.Core.Chain.Linear.{
  IsLinear, found, height-IsLinear, verify_chain-ok, transport-IsLinear, new-founded,
  founded-IsLinear, link-IsLinear,
}
use kainotes.Core.Chain.Index.{IsLinked, add_block-IsLinked}
use kainotes.Core.Chain.Execution.{execute_failure, execute_success}

module _ (host : Host) where
  -- The chains that start at a genesis and grow only at their head, by blocks whose hash is new,
  -- with transactions executed in between; the number is the height.
  pub data Grown : Blockchain → ℕ → Type 0 where
    founding : (g : Block) (c : Blockchain) → Chain.new host g ≡ ok c → Grown c 0
    adding :
        {c : Blockchain} {h : ℕ} (b : Block) (c' : Blockchain)
        → Grown c h
        → h + 1 < u64_mod
        → b.header.parent_hash ≡ c.head
        → lookup (block_hash host b) c.blocks ≡ none
        → add_block host b c ≡ (ok tt, c')
        → Grown c' (h + 1)
    executing :
        {c : Blockchain} {h : ℕ} (tx : Transaction) (r : TransactionReceipt) (c' : Blockchain)
        → Grown c h
        → execute_transaction host tx c ≡ (ok r, c')
        → Grown c' h
    refusing :
        {c : Blockchain} {h : ℕ} (tx : Transaction) (e : BlockchainError) (c' : Blockchain)
        → Grown c h
        → execute_transaction host tx c ≡ (err e, c')
        → Grown c' h

  pub Grown-IsLinear : {c : Blockchain} {h : ℕ} → Grown c h → IsLinear host c h
  Grown-IsLinear (founding g c e) =
      let (number, is_founded) = new-founded host g c e in
      subst (λ x. IsLinear host x 0) (sym is_founded) (founded-IsLinear host g number)
  Grown-IsLinear (adding {c = c} {h = h} b c' grown small on_head fresh e) =
      let a = add_block-IsLinked host b c c' e in
      subst (λ x. IsLinear host x (h + 1)) (sym a.linked)
        (link-IsLinear host b c h (Grown-IsLinear grown) small on_head fresh
          (subst (IsLinked host b c) a.linked a))
  Grown-IsLinear (executing {c = c} {h = h} tx r c' grown e) =
      let x = execute_success host tx c c' r e in
      transport-IsLinear host c c' h x.blocks x.index x.head x.genesis (Grown-IsLinear grown)
  Grown-IsLinear (refusing {c = c} {h = h} tx x c' grown e) =
      let u = execute_failure host tx c c' x e in
      transport-IsLinear host c c' h u.blocks u.index u.head u.genesis (Grown-IsLinear grown)

  -- A chain that started at a genesis block and grew only at its head, by blocks whose hash was
  -- new, with any executions of transactions in between, passes `verify_chain`, and its height is
  -- the number of blocks that were added, which is below 2^64.
  pub Grown-verifies :
      (c : Blockchain) (h : ℕ) → Grown c h → (verify_chain host c ≡ ok tt) × (height c ≡ ok h)
  Grown-verifies c h g =
      let l = Grown-IsLinear g in (verify_chain-ok host c h l, height-IsLinear host c h l)

  collect-length :
      (c : Blockchain) (h : ℕ)
      → IsLinear host c h
      → (n start : ℕ) → start + n ≤ h + 1
      → length (collect_blocks n start c) ≡ n
  unfolding collect_blocks
  collect-length c h l zero start b = refl
  collect-length c h l (suc n) start b =
      ground (arith, found host c h start l, collect-length c h l n (start + 1))

  -- On such a chain of height `h`, `get_recent_blocks` with a count up to `h` returns one block
  -- more than the count, and with a larger count all `h + 1` blocks.
  recent_blocks_count :
      (c : Blockchain) (h count : ℕ)
      → Grown c h
      → (bs : List Block) × (get_recent_blocks count c ≡ ok bs) × (length bs ≡ min count h + 1)
  unfolding get_recent_blocks get_block_range
  recent_blocks_count c h count g =
      let l = Grown-IsLinear g in
      let start = h - count in
      (
        collect_blocks (h + 1 - start) start c,
        rw (height-IsLinear host c h l) refl,
        omega (arith, collect-length c h l (h + 1 - start) start (omega arith)),
      )
