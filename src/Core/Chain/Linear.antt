-- ===== src/Core/Chain/Linear.antt =====
-- The chains whose numbers run from the genesis to the head, and `verify_chain` of
-- crates/blockchain-core/src/chain.rs on them.
use kainotes.Prelude.{
  ℕ, zero, suc, ◌+◌, ◌≤◌, ◌<◌, ◌≡◌, refl, ◌∙◌, subst, none, some, [], ◌∷◌, arith, if◌then◌else◌,
  u64_mod, leb,
}
use kainotes.Prelude.Result.{ok}
use kainotes.Dict.{lookup, insert}
use kainotes.Dict.Laws.{lookup-insert}
use kainotes.Core.World.{empty_world}
use kainotes.Core.Host.{Host}
use kainotes.Core.Block.{Block, block_hash, block_number, is_genesis, validate}
use kainotes.Core.Block.Validity.{validate_lem}
use kainotes.Core.Chain
use kainotes.Core.Chain.{
  Blockchain, link, add_block, execute_transaction, get_block_by_number, and_get, head_block,
  genesis_block, height, verify_from, verify_chain, collect_blocks, get_block_range,
  get_recent_blocks,
}
use kainotes.Core.Chain.Index.{IsLinked}

module _ (host : Host) where
  -- Blocks from the genesis to the head, one for each number up to `h`.
  pub record IsLinear (c : Blockchain) (h : ℕ) : Type 0 where
    pub block_at : ℕ → Block
    pub number : (n : ℕ) → n ≤ h → block_number (block_at n) ≡ n
    pub indexed : (n : ℕ) → n ≤ h → lookup n c.block_by_number ≡ some (block_hash host (block_at n))
    pub stored :
        (n : ℕ) → n ≤ h → lookup (block_hash host (block_at n)) c.blocks ≡ some (block_at n)
    pub linked : (n : ℕ) → n < h → validate host (block_at (n + 1)) (block_at n) ≡ ok tt
    pub top : c.head ≡ block_hash host (block_at h)
    pub bottom : c.genesis ≡ block_hash host (block_at 0)

  pub found :
      (c : Blockchain) (h n : ℕ) (l : IsLinear c h)
      → n ≤ h
      → get_block_by_number n c ≡ some (l.block_at n)
  unfolding get_block_by_number
  found c h n l b = rw (l.indexed n b, l.stored n b) refl

  pub height-IsLinear : (c : Blockchain) (h : ℕ) → IsLinear c h → height c ≡ ok h
  unfolding height head_block
  height-IsLinear c h l = rw (l.top, l.stored h (omega arith), l.number h (omega arith)) refl

  verify_from-ok :
      (c : Blockchain) (h : ℕ) (l : IsLinear c h) (n start : ℕ)
      → start + n ≤ h
      → verify_from host n (start + 1) (l.block_at start) c ≡ ok tt
  unfolding verify_from
  verify_from-ok c h l zero start b = refl
  verify_from-ok c h l (suc n) start b =
      rw (found c h (start + 1) l (omega arith), l.linked start (omega arith))
        (verify_from-ok c h l n (start + 1) (omega arith))

  genesis_found : (c : Blockchain) (h : ℕ) (l : IsLinear c h) → genesis_block c ≡ ok (l.block_at 0)
  unfolding genesis_block
  genesis_found c h l = rw (l.bottom, l.stored 0 (omega arith)) refl

  pub verify_chain-ok : (c : Blockchain) (h : ℕ) → IsLinear c h → verify_chain host c ≡ ok tt
  unfolding verify_chain
  verify_chain-ok c h l =
      rw (genesis_found c h l, height-IsLinear c h l) (verify_from-ok c h l h 0 (omega arith))

  -- Another chain with the same blocks.
  pub transport-IsLinear :
      (c c' : Blockchain) (h : ℕ)
      → c'.blocks ≡ c.blocks
      → c'.block_by_number ≡ c.block_by_number
      → c'.head ≡ c.head
      → c'.genesis ≡ c.genesis
      → IsLinear c h
      → IsLinear c' h
  transport-IsLinear c c' h blocks index head genesis l = record {
    block_at = l.block_at;
    number = l.number;
    indexed = λ n b. rw index (l.indexed n b);
    stored = λ n b. rw blocks (l.stored n b);
    linked = l.linked;
    top = head ∙ l.top;
    bottom = genesis ∙ l.bottom;
  }

  -- The chain of one genesis block.
  abbrev pub founded : Block → Blockchain
  founded g = record {
    blocks = (block_hash host g, g) ∷ [];
    block_by_number = (0, block_hash host g) ∷ [];
    head = block_hash host g;
    genesis = block_hash host g;
    state = empty_world;
    receipts = [];
  }

  pub new-founded :
      (g : Block) (c : Blockchain)
      → Chain.new host g ≡ ok c
      → (block_number g ≡ 0) × (c ≡ founded g)
  unfolding Chain.new is_genesis insert
  new-founded g c h = ground arith

  pub founded-IsLinear : (g : Block) → block_number g ≡ 0 → IsLinear (founded g) 0
  unfolding lookup
  founded-IsLinear g zero_number = record {
    block_at = λ n. g;
    number = λ n b. omega (arith, zero_number);
    indexed = λ n b. ground arith;
    stored = λ n b. ground arith;
    linked = λ n b. absurd (omega arith);
    top = refl;
    bottom = refl;
  }

  module _ (b : Block) (c : Blockchain) (h : ℕ) (l : IsLinear c h) (small : h + 1 < u64_mod) where
    -- The blocks of the longer chain.
    abbrev longer : ℕ → Block
    longer n = if leb n h then l.block_at n else b

    parent_is_top :
        b.header.parent_hash ≡ c.head
        → (a : IsLinked host b c (link host b c)) → a.parent ≡ l.block_at h
    parent_is_top on_head a = ground (arith, a.known, on_head, l.top, l.stored h (omega arith))

    pub link-IsLinear :
        b.header.parent_hash ≡ c.head
        → lookup (block_hash host b) c.blocks ≡ none
        → IsLinked host b c (link host b c)
        → IsLinear (link host b c) (h + 1)
    link-IsLinear on_head fresh a =
        let valid : validate host b (l.block_at h) ≡ ok tt =
          subst (λ p. validate host b p ≡ ok tt) (parent_is_top on_head a) a.valid in
        let child = (validate_lem host b (l.block_at h)).0 valid in
        let number : block_number b ≡ h + 1 =
          omega (arith, child.number, l.number h (omega arith), small) in
        record {
          block_at = longer;
          number = λ n k. ground (arith, number, l.number n);
          indexed = λ n k. ground (
            arith,
            number,
            l.indexed n,
            lookup-insert n (block_number b) (block_hash host b) c.block_by_number,
          );
          stored = λ n k. ground (
            arith,
            l.stored n,
            fresh,
            lookup-insert (block_hash host (longer n)) (block_hash host b) b c.blocks,
          );
          linked = λ n k. ground (arith, l.linked n, valid);
          top = ground arith;
          bottom = ground (arith, l.bottom);
        }
