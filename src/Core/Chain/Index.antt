-- ===== src/Core/Chain/Index.antt =====
-- `add_block` of crates/blockchain-core/src/chain.rs, on its branches.
use kainotes.Prelude.{ℕ, ◌≡◌, ◌≢◌, refl, some, arith, ◌==◌, if◌then◌else◌}
use kainotes.Prelude.Result.{ok}
use kainotes.Dict.{lookup}
use kainotes.Dict.Laws.{lookup-insert}
use kainotes.Core.Types.{Hash}
use kainotes.Core.World.{state_root}
use kainotes.Core.Host.{Host}
use kainotes.Core.Block.{Block, block_hash, validate}
use kainotes.Core.Chain.{Blockchain, link, add_block, get_block, head_block}

module _ (host : Host) (b : Block) where
  -- What an `add_block` that returns `Ok` has found, and the step that it has taken.
  pub record IsLinked (c c' : Blockchain) : Type 0 where
    pub parent : Block
    pub known : lookup b.header.parent_hash c.blocks ≡ some parent
    pub valid : validate host b parent ≡ ok tt
    pub state_root_matches : b.header.state_root ≡ state_root host c.state
    pub linked : c' ≡ link host b c

  pub add_block-IsLinked : (c c' : Blockchain) → add_block host b c ≡ (ok tt, c') → IsLinked c c'
  unfolding add_block get_block head_block
  add_block-IsLinked c c' h = ground arith

  -- What an `add_block` that returns `Ok` has found, and what a reader of the chain sees of it.
  pub record IsAdded (c c' : Blockchain) : Type 0 where
    pub parent : Block
    pub known : lookup b.header.parent_hash c.blocks ≡ some parent
    pub valid : validate host b parent ≡ ok tt
    pub state_root_matches : b.header.state_root ≡ state_root host c.state
    pub stored :
        (k : Hash)
        → lookup k c'.blocks ≡ (if k == block_hash host b then some b else lookup k c.blocks)
    pub indexed :
        (n : ℕ)
        → lookup n c'.block_by_number
          ≡ (if n == b.header.number then some (block_hash host b) else lookup n c.block_by_number)
    pub head : c'.head ≡ block_hash host b
    pub genesis : c'.genesis ≡ c.genesis
    pub state : c'.state ≡ c.state
    pub receipts : c'.receipts ≡ c.receipts

  IsLinked-IsAdded : (c c' : Blockchain) → IsLinked c c' → IsAdded c c'
  IsLinked-IsAdded c c' l = rw l.linked (record {
    parent = l.parent;
    known = l.known;
    valid = l.valid;
    state_root_matches = l.state_root_matches;
    stored = λ k. ground (arith, lookup-insert k (block_hash host b) b c.blocks);
    indexed =
        λ n. ground (arith, lookup-insert n b.header.number (block_hash host b) c.block_by_number);
    head = refl;
    genesis = refl;
    state = refl;
    receipts = refl;
  })

  -- An `add_block` that succeeds has found the parent by its hash, has found the block valid after
  -- it, and the state root equal to the one of the world state. Then the block is found under its
  -- hash and its hash under its number, every other hash and number finds what it found before, the
  -- block is the head, wherever its parent was, and the genesis, the state and the receipts are the
  -- same.
  pub add_block-IsAdded : (c c' : Blockchain) → add_block host b c ≡ (ok tt, c') → IsAdded c c'
  add_block-IsAdded c c' h = IsLinked-IsAdded c c' (add_block-IsLinked c c' h)

  -- An `add_block` that returns an error, or that panics, leaves the chain as it was.
  pub add_block_failure :
      (c : Blockchain) → (add_block host b c).0 ≢ ok tt → (add_block host b c).1 ≡ c
  unfolding add_block get_block head_block
  add_block_failure c h = ground arith
