-- ===== src/Core/Fork/Path.antt =====
-- The path that `calculate_reorg_path` of crates/blockchain-core/src/fork.rs returns.
use kainotes.Prelude.{
  ℕ, zero, suc, ◌+◌, ◌≤◌, ◌≡◌, refl, sym, ap, ◌∙◌, subst, true, Option, none, some, List, [], ◌∷◌,
  ◌++◌, arith, length, ltb, ◌==◌, Bool-cases, Option-cases, inl, inr,
}
use kainotes.Prelude.Result.{Result, ok, err, panic}
use kainotes.Dict.{Dict, lookup}
use kainotes.Core.Types.{Hash}
use kainotes.Core.Error.{BlockchainError}
use kainotes.Core.Block.{Block}
use kainotes.Core.Fork.{
  ForkResolver, ReorgPath, find_common_ancestor, walk_back, walk_down, push_block, path_of, reverse,
  calculate_reorg_path,
}

-- The blocks of the map from one hash down to another, along the parent hashes, without the last.
pub data IsDown (blocks : Dict Block) : Hash → Hash → List Block → Type 0 where
  arrived : (h : Hash) → IsDown blocks h h []
  down :
      {h ancestor : Hash} {bs : List Block} (b : Block)
      → lookup h blocks ≡ some b
      → IsDown blocks b.header.parent_hash ancestor bs
      → IsDown blocks h ancestor (b ∷ bs)

push_block-ok :
    (b : Block) (r : Option (Result BlockchainError (List Block))) (bs : List Block)
    → push_block b r ≡ some (ok bs)
    → (cs : List Block) × (r ≡ some (ok cs)) × (bs ≡ b ∷ cs)
push_block-ok b none bs h = absurd (ground (arith, h))
push_block-ok b (some (ok cs)) bs h = (cs, refl, ground (arith, h))
push_block-ok b (some (err e)) bs h = absurd (ground (arith, h))
push_block-ok b (some panic) bs h = absurd (ground (arith, h))

here :
    (blocks : Dict Block) (ancestor current : Hash) (bs : List Block)
    → (current == ancestor) ≡ true
    → [] ≡ bs
    → IsDown blocks current ancestor bs
here blocks ancestor current bs same e =
    let h : current ≡ ancestor = ground (arith, same) in
    subst (λ x. IsDown blocks current x bs) h
      (subst (IsDown blocks current current) e (arrived current))

walk_down-IsDown :
    (fuel : ℕ) (blocks : Dict Block) (ancestor current : Hash) (bs : List Block)
    → walk_down fuel blocks ancestor current ≡ some (ok bs)
    → IsDown blocks current ancestor bs
unfolding walk_down
walk_down-IsDown zero blocks ancestor current bs h = absurd (ground (arith, h))
walk_down-IsDown (suc fuel) blocks ancestor current bs h = elim (Bool-cases (current == ancestor)) [
  | inl same ↦ here blocks ancestor current bs same (ground (arith, same, h))
  | inr other ↦ elim (Option-cases (lookup current blocks)) [
    | inl absent ↦ absurd (ground (arith, other, absent, h))
    | inr (b, found) ↦
        let pushed : push_block b (walk_down fuel blocks ancestor b.header.parent_hash)
            ≡ some (ok bs) =
          ground (arith, other, found, h) in
        let (cs, rest, e) = push_block-ok b _ bs pushed in
        subst (IsDown blocks current ancestor) (sym e)
          (down b found (walk_down-IsDown fuel blocks ancestor b.header.parent_hash cs rest))
  ]
]

walk_back-IsDown :
    (fuel max : ℕ) (blocks : Dict Block) (ancestor current : Hash) (found_so_far : ℕ)
    (bs : List Block)
    → found_so_far ≤ max
    → walk_back fuel max blocks ancestor current found_so_far ≡ some (ok bs)
    → IsDown blocks current ancestor bs × (found_so_far + length bs ≤ max)
unfolding walk_back
walk_back-IsDown zero max blocks ancestor current n bs l h = absurd (ground (arith, h))
walk_back-IsDown (suc fuel) max blocks ancestor current n bs l h =
    elim (Bool-cases (current == ancestor)) [
      | inl same ↦
          let e : [] ≡ bs = ground (arith, same, h) in
          (
            here blocks ancestor current bs same e,
            subst (λ x. n + length x ≤ max) e (omega (arith, l)),
          )
      | inr other ↦ elim (Option-cases (lookup current blocks)) [
        | inl absent ↦ absurd (ground (arith, other, absent, h))
        | inr (b, found) ↦ elim (Bool-cases (ltb max (n + 1))) [
          | inl deep ↦ absurd (ground (arith, other, found, deep, h))
          | inr shallow ↦
              let pushed : push_block b
                    (walk_back fuel max blocks ancestor b.header.parent_hash (n + 1))
                  ≡ some (ok bs) =
                ground (arith, other, found, shallow, h) in
              let (cs, rest, e) = push_block-ok b _ bs pushed in
              let fits : n + 1 ≤ max = ground (arith, shallow) in
              let (path, bound) =
                walk_back-IsDown fuel max blocks ancestor b.header.parent_hash (n + 1) cs fits
                  rest in
              (
                subst (IsDown blocks current ancestor) (sym e) (down b found path),
                subst (λ x. n + length x ≤ max) (sym e) (omega (arith, bound)),
              )
        ]
      ]
    ]

-- A path that joins the two heads.
pub record IsReorg (blocks : Dict Block) (old_head new_head : Hash) (max : ℕ) (p : ReorgPath)
    : Type 0 where
  pub reverted : IsDown blocks old_head p.common_ancestor p.revert_blocks
  pub applied : IsDown blocks new_head p.common_ancestor (reverse p.apply_blocks)
  pub depth_counts : p.depth ≡ length p.revert_blocks
  pub depth_bound : p.depth ≤ max

reverse-append : (bs : List Block) (c : Block) → reverse (bs ++ (c ∷ [])) ≡ c ∷ reverse bs
reverse-append [] c = refl
reverse-append (b ∷ bs) c = ap (λ xs. xs ++ (b ∷ [])) (reverse-append bs c)

reverse_twice : (bs : List Block) → reverse (reverse bs) ≡ bs
reverse_twice [] = refl
reverse_twice (b ∷ bs) = reverse-append (reverse bs) b ∙ ap (λ xs. b ∷ xs) (reverse_twice bs)

path_of-ok :
    (ancestor : Hash) (r s : Option (Result BlockchainError (List Block))) (p : ReorgPath)
    → path_of ancestor r s ≡ some (ok p)
    → (revert downs : List Block) × (r ≡ some (ok revert))
      × (s ≡ some (ok downs))
      × (p ≡ record {
        common_ancestor = ancestor;
        revert_blocks = revert;
        apply_blocks = reverse downs;
        depth = length revert;
      })
path_of-ok ancestor none s p h = absurd (ground (arith, h))
path_of-ok ancestor (some (err e)) s p h = absurd (ground (arith, h))
path_of-ok ancestor (some panic) s p h = absurd (ground (arith, h))
path_of-ok ancestor (some (ok revert)) none p h = absurd (ground (arith, h))
path_of-ok ancestor (some (ok revert)) (some (err e)) p h = absurd (ground (arith, h))
path_of-ok ancestor (some (ok revert)) (some panic) p h = absurd (ground (arith, h))
path_of-ok ancestor (some (ok revert)) (some (ok downs)) p h =
    (revert, downs, refl, refl, ground (arith, h))

joined :
    (blocks : Dict Block) (old_head new_head : Hash) (fuel : ℕ) (r : ForkResolver) (ancestor : Hash)
    (p : ReorgPath)
    → path_of ancestor
        (walk_back fuel r.max_reorg_depth blocks ancestor old_head 0)
        (walk_down fuel blocks ancestor new_head)
      ≡ some (ok p)
    → IsReorg blocks old_head new_head r.max_reorg_depth p
joined blocks old_head new_head fuel r ancestor p h =
    let (revert, downs, back, front, e) = path_of-ok ancestor _ _ p h in
    let (path, bound) =
      walk_back-IsDown fuel r.max_reorg_depth blocks ancestor old_head 0 revert (omega arith)
        back in
    subst (IsReorg blocks old_head new_head r.max_reorg_depth) (sym e) (record {
      reverted = path;
      applied =
          subst (IsDown blocks new_head ancestor) (sym (reverse_twice downs))
            (walk_down-IsDown fuel blocks ancestor new_head downs front);
      depth_counts = refl;
      depth_bound = omega (arith, bound);
    })

-- A reorganisation that is returned has the blocks from the old head down to the common ancestor as
-- those to revert, the blocks from the ancestor up to the new head as those to apply, each the
-- parent of the next by its hash and stored in the map, and the number of blocks to revert as its
-- depth, which is within the limit.
pub reorg_connects :
    (fuel : ℕ) (blocks : Dict Block) (old_head new_head : Hash) (r : ForkResolver) (p : ReorgPath)
    → calculate_reorg_path fuel blocks old_head new_head r ≡ some (ok p)
    → IsReorg blocks old_head new_head r.max_reorg_depth p
unfolding calculate_reorg_path
reorg_connects fuel blocks old_head new_head r p h =
    elim (Option-cases (find_common_ancestor fuel blocks blocks old_head new_head)) [
      | inl out ↦ absurd (ground (arith, out, h))
      | inr (answer, found) ↦ elim (Option-cases answer) [
        | inl nowhere ↦ absurd (ground (arith, nowhere, found, h))
        | inr (ancestor, at) ↦
            joined blocks old_head new_head fuel r ancestor p (ground (arith, at, found, h))
      ]
    ]
