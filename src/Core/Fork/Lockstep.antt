-- ===== src/Core/Fork/Lockstep.antt =====
-- `find_common_ancestor` of crates/blockchain-core/src/fork.rs from equal heads.
use kainotes.Prelude.{
  ℕ, zero, suc, ◌+◌, ◌≤◌, ◌<◌, ◌≡◌, refl, sym, ap, ◌≢◌, ◌∙◌, subst, true, false, some, List, [],
  ◌∷◌, arith, length,
}
use kainotes.Dict.{Dict, lookup}
use kainotes.Core.Types.{Hash}
use kainotes.Core.Host.{Host}
use kainotes.Core.Block.{Block, block_number, block_hash, is_genesis}
use kainotes.Core.Block.Validity.{validate_lem}
use kainotes.Core.Chain.{Blockchain}
use kainotes.Core.Chain.Linear.{IsLinear}
use kainotes.Core.Chain.Growth.{Grown, Grown-IsLinear}
use kainotes.Core.Fork.{search, search_limit, is_visited, find_common_ancestor}

-- One round of the search from equal hashes.
module _ (fuel : ℕ) (blocks : Dict Block) (a : Hash) (vs : List Hash) (block : Block)
    (fresh : is_visited a vs ≡ false) (found : lookup a blocks ≡ some block) where
  stops : is_genesis block ≡ true → search (suc fuel) blocks blocks a a vs vs ≡ some (some a)
  unfolding search
  stops bottom = ground (arith, fresh, found, bottom)

  goes_on :
      is_genesis block ≡ false
      → length (a ∷ vs) ≤ search_limit
      → search (suc fuel) blocks blocks a a vs vs
        ≡ search fuel blocks blocks block.header.parent_hash block.header.parent_hash
            (a ∷ vs)
            (a ∷ vs)
  unfolding search
  goes_on above small = ground (arith, fresh, found, above, small)

module _ (host : Host) (c : Blockchain) (h : ℕ) (l : IsLinear host c h) where
  -- The hash of the block of a number.
  abbrev at : ℕ → Hash
  at n = block_hash host (l.block_at n)

  at-distinct : (m n : ℕ) → m < n → n ≤ h → at n ≢ at m
  at-distinct m n less bound e =
      let same : some (l.block_at n) ≡ some (l.block_at m) =
        sym (l.stored n bound)
        ∙ ap (λ x. lookup x c.blocks) e
        ∙ l.stored m (omega (arith, less, bound)) in
      let b : l.block_at n ≡ l.block_at m = ground (arith, same) in
      omega
        (arith, less, ap block_number b, l.number n bound, l.number m (omega (arith, less, bound)))

  parent_at : (n : ℕ) → n < h → (l.block_at (n + 1)).header.parent_hash ≡ at n
  parent_at n less =
      (((validate_lem host (l.block_at (n + 1)) (l.block_at n)).0) (l.linked n less)).parent_hash

  -- Nothing from the number on down is visited.
  abbrev IsAhead : ℕ → List Hash → Type 0
  IsAhead n vs = (m : ℕ) → m ≤ n → is_visited (at m) vs ≡ false

  above_genesis : (n : ℕ) → n < h → is_genesis (l.block_at (n + 1)) ≡ false
  unfolding is_genesis
  above_genesis n less = ground (arith, l.number (n + 1))

  lockstep :
      (n fuel : ℕ) (vs : List Hash)
      → is_genesis (l.block_at 0) ≡ true
      → n ≤ h
      → IsAhead n vs
      → length vs + n < search_limit
      → n < fuel
      → search fuel c.blocks c.blocks (at n) (at n) vs vs ≡ some (some (at 0))
  lockstep n zero vs g bound ahead small l' = absurd (omega (arith, l'))
  lockstep zero (suc fuel) vs g bound ahead small l' =
      stops fuel c.blocks (at 0) vs (l.block_at 0) (ahead 0 (omega arith)) (l.stored 0 bound) g
  lockstep (suc n) (suc fuel) vs g bound ahead small l' =
      let less : n < h = omega (arith, bound) in
      let e : suc n ≡ n + 1 = omega arith in
      let parent : (l.block_at (suc n)).header.parent_hash ≡ at n =
        subst (λ k. (l.block_at k).header.parent_hash ≡ at n) (sym e) (parent_at n less) in
      let above : is_genesis (l.block_at (suc n)) ≡ false =
        subst (λ k. is_genesis (l.block_at k) ≡ false) (sym e) (above_genesis n less) in
      goes_on fuel c.blocks (at (suc n)) vs (l.block_at (suc n)) (ahead (suc n) (omega arith))
        (l.stored (suc n) bound) above (omega (arith, small))
      ∙ ap (λ p. search fuel c.blocks c.blocks p p (at (suc n) ∷ vs) (at (suc n) ∷ vs)) parent
      ∙ lockstep n fuel (at (suc n) ∷ vs) g (omega (arith, bound))
          (λ m k. ground (arith, ahead m, at-distinct m (suc n), k, bound)) (omega (arith, small))
          (omega (arith, l'))

-- On a chain of fewer than 10000 blocks over its genesis that grew from it at its head, the search
-- of a common ancestor of the head with itself, with enough fuel, answers with the genesis and not
-- with the head.
same_heads_meet_at_genesis :
    (host : Host) (c : Blockchain) (h fuel : ℕ) (g : Block)
    → Grown host c h
    → lookup c.genesis c.blocks ≡ some g
    → is_genesis g ≡ true
    → h < search_limit
    → h < fuel
    → find_common_ancestor fuel c.blocks c.blocks c.head c.head ≡ some (some c.genesis)
unfolding find_common_ancestor
same_heads_meet_at_genesis host c h fuel g grown known bottom small enough =
    let l = Grown-IsLinear host grown in
    let same : some g ≡ some (l.block_at 0) =
      sym known ∙ ap (λ x. lookup x c.blocks) l.bottom ∙ l.stored 0 (omega arith) in
    let b : g ≡ l.block_at 0 = ground (arith, same) in
    let root : is_genesis (l.block_at 0) ≡ true = subst (λ x. is_genesis x ≡ true) b bottom in
    ap (λ x. search fuel c.blocks c.blocks x x [] []) l.top
    ∙ lockstep host c h l h fuel [] root (omega arith) (λ m k. refl) (omega (arith, small)) enough
    ∙ ap (λ x. some (some x)) (sym l.bottom)
