-- ===== src/Core/Fork/Fuel.antt =====
-- The fuel of the loops of crates/blockchain-core/src/fork.rs.
use kainotes.Prelude.{
  ℕ, zero, suc, ◌+◌, ◌≤◌, ◌<◌, ◌≡◌, refl, sym, ap, subst, false, ◌&&◌, Option, none, some, List, [],
  ◌∷◌, arith, length, ltb, ◌==◌, if◌then◌else◌, Bool-cases, Option-cases, inl, inr, All, All-weaken,
}
use kainotes.Prelude.Result.{Result, ok, err, panic}
use kainotes.Dict.{Dict, lookup}
use kainotes.Core.Types.{Hash}
use kainotes.Core.Error.{BlockchainError, no_common_ancestor, block_not_found, reorg_too_deep}
use kainotes.Core.Block.{Block, block_number, is_genesis}
use kainotes.Core.Fork.{
  ForkResolver, search, search_limit, is_visited, visit, find_common_ancestor, walk_back, walk_down,
  push_block, path_of, calculate_reorg_path,
}

-- One more than the number of the block at a hash, and 0 where there is none.
abbrev pub level : Dict Block → Hash → ℕ
level blocks h = elim (lookup h blocks) [ none ↦ 0 | some b ↦ block_number b + 1 ]

-- The parent of every block is missing or has a smaller number.
abbrev pub IsAcyclic : Dict Block → Type 0
IsAcyclic blocks =
    (h : Hash) (b : Block)
    → lookup h blocks ≡ some b
    → level blocks b.header.parent_hash < level blocks h

-- The loop has ended.
abbrev pub HasEnded : {A : Type 0} → Option A → Type 0
HasEnded {A} o = (a : A) × (o ≡ some a)

push_block-HasEnded :
    (b : Block) (r : Option (Result BlockchainError (List Block)))
    → HasEnded r
    → HasEnded (push_block b r)
push_block-HasEnded b none (a, h) = absurd (ground (arith, h))
push_block-HasEnded b (some (ok bs)) h = (ok (b ∷ bs), refl)
push_block-HasEnded b (some (err e)) h = (err e, refl)
push_block-HasEnded b (some panic) h = (panic, refl)

walk_down-HasEnded :
    (fuel : ℕ) (blocks : Dict Block) (ancestor current : Hash)
    → IsAcyclic blocks
    → level blocks current < fuel
    → HasEnded (walk_down fuel blocks ancestor current)
unfolding walk_down
walk_down-HasEnded zero blocks ancestor current a l = absurd (omega (arith, l))
walk_down-HasEnded (suc fuel) blocks ancestor current a l =
    elim (Bool-cases (current == ancestor)) [
      | inl same ↦ (ok [], rw (same, walk_down) refl)
      | inr other ↦ elim (Option-cases (lookup current blocks)) [
        | inl absent ↦ (err (block_not_found current), rw (other, absent, walk_down) refl)
        | inr (b, found) ↦
            let rest =
              walk_down-HasEnded fuel blocks ancestor b.header.parent_hash a
                (omega (arith, a current b found, l)) in
            rw (other, found, walk_down) (push_block-HasEnded b _ rest)
      ]
    ]

walk_back-HasEnded :
    (fuel max : ℕ) (blocks : Dict Block) (ancestor current : Hash) (n : ℕ)
    → n ≤ max
    → max < fuel + n
    → HasEnded (walk_back fuel max blocks ancestor current n)
unfolding walk_back
walk_back-HasEnded zero max blocks ancestor current n h l = absurd (omega (arith, h, l))
walk_back-HasEnded (suc fuel) max blocks ancestor current n h l =
    elim (Bool-cases (current == ancestor)) [
      | inl same ↦ (ok [], rw (same, walk_back) refl)
      | inr other ↦ elim (Option-cases (lookup current blocks)) [
        | inl absent ↦ (err (block_not_found current), rw (other, absent, walk_back) refl)
        | inr (b, found) ↦ elim (Bool-cases (ltb max (n + 1))) [
          | inl deep ↦ (err (reorg_too_deep (n + 1)), rw (other, found, deep, walk_back) refl)
          | inr shallow ↦
              let rest =
                walk_back-HasEnded fuel max blocks ancestor b.header.parent_hash (n + 1)
                  (ground (arith, shallow)) (omega (arith, l)) in
              rw (other, found, shallow, walk_back) (push_block-HasEnded b _ rest)
        ]
      ]
    ]

is_visited-above :
    (blocks : Dict Block) (h : Hash) (hs : List Hash)
    → All (λ (x : Hash). level blocks h < level blocks x) hs
    → is_visited h hs ≡ false
is_visited-above blocks h [] a = refl
is_visited-above blocks h (x ∷ hs) a = elim (Bool-cases (x == h)) [
  | inl same ↦
      let e : x ≡ h = ground (arith, same) in absurd (omega (arith, a.0, ap (level blocks) e))
  | inr other ↦ rw other (is_visited-above blocks h hs a.1)
]

visit-above :
    (blocks : Dict Block) (a parent : Hash) (va : List Hash)
    → All (λ (x : Hash). level blocks a < level blocks x) va
    → level blocks parent < level blocks a
    → All (λ (x : Hash). level blocks parent < level blocks x) (a ∷ va)
visit-above blocks a parent va above h = (h, All-weaken _ _ va (λ x k. omega (arith, h, k)) above)

-- One round of the search ends it, or its next round does.
round-HasEnded :
    (fuel : ℕ) (chain_a chain_b : Dict Block) (a b : Hash) (va vb : List Hash)
    → ((block_a block_b : Block)
        → lookup a chain_a ≡ some block_a
        → ltb search_limit (length (visit a va)) ≡ false
        → HasEnded (
            search fuel chain_a chain_b block_a.header.parent_hash block_b.header.parent_hash
              (visit a va)
              (visit b vb)))
    → HasEnded (search (suc fuel) chain_a chain_b a b va vb)
unfolding search
round-HasEnded fuel chain_a chain_b a b va vb next = elim (Bool-cases (is_visited a vb)) [
  | inl met ↦ (some a, rw (met, search) refl)
  | inr not_met ↦ elim (Bool-cases (is_visited b va)) [
    | inl met ↦ (some b, rw (not_met, met, search) refl)
    | inr neither ↦ elim (Option-cases (lookup a chain_a)) [
      | inl absent ↦ (none, rw (not_met, neither, absent, search) refl)
      | inr (block_a, found_a) ↦ elim (Option-cases (lookup b chain_b)) [
        | inl absent ↦ (none, rw (not_met, neither, found_a, absent, search) refl)
        | inr (block_b, found_b) ↦ go block_a block_b not_met neither found_a found_b
      ]
    ]
  ]
]
  where
    go :
        (block_a block_b : Block)
        → is_visited a vb ≡ false
        → is_visited b va ≡ false
        → lookup a chain_a ≡ some block_a
        → lookup b chain_b ≡ some block_b
        → HasEnded (search (suc fuel) chain_a chain_b a b va vb)
    go block_a block_b not_met neither found_a found_b =
        elim (Bool-cases (is_genesis block_a && is_genesis block_b)) [
          | inl bottom ↦ (some a, rw (not_met, neither, found_a, found_b, bottom, search) refl)
          | inr above ↦ elim (Bool-cases (ltb search_limit (length (visit a va)))) [
            | inl far ↦ (none, rw (not_met, neither, found_a, found_b, above, far, search) refl)
            | inr near ↦ elim (Bool-cases (ltb search_limit (length (visit b vb)))) [
              | inl far ↦
                  (none, rw (not_met, neither, found_a, found_b, above, near, far, search) refl)
              | inr near_b ↦
                  rw (not_met, neither, found_a, found_b, above, near, near_b, search)
                    (next block_a block_b found_a near)
            ]
          ]
        ]

search-HasEnded :
    (fuel : ℕ) (chain_a chain_b : Dict Block) (a b : Hash) (va vb : List Hash)
    → IsAcyclic chain_a
    → All (λ (x : Hash). level chain_a a < level chain_a x) va
    → length va ≤ search_limit
    → search_limit < fuel + length va
    → HasEnded (search fuel chain_a chain_b a b va vb)
search-HasEnded zero chain_a chain_b a b va vb acyclic above small l =
    absurd (omega (arith, small, l))
search-HasEnded (suc fuel) chain_a chain_b a b va vb acyclic above small l =
    round-HasEnded fuel chain_a chain_b a b va vb λ block_a block_b found near.
      let fresh : visit a va ≡ a ∷ va =
        ap (λ c. if c then va else a ∷ va) (is_visited-above chain_a a va above) in
      let fits : length (a ∷ va) ≤ search_limit =
        subst (λ v. length v ≤ search_limit) fresh (ground (arith, near)) in
      subst
        (λ v. HasEnded (
          search fuel chain_a chain_b block_a.header.parent_hash block_b.header.parent_hash v
            (visit b vb)))
        (sym fresh)
        (search-HasEnded fuel chain_a chain_b block_a.header.parent_hash block_b.header.parent_hash
          (a ∷ va) (visit b vb) acyclic
          (visit-above chain_a a block_a.header.parent_hash va above (acyclic a block_a found)) fits
          (omega (arith, l)))

path_of-HasEnded :
    (ancestor : Hash) (r s : Option (Result BlockchainError (List Block)))
    → HasEnded r
    → HasEnded s
    → HasEnded (path_of ancestor r s)
path_of-HasEnded ancestor none s (x, h) k = absurd (ground (arith, h))
path_of-HasEnded ancestor (some (err e)) s h k = (err e, refl)
path_of-HasEnded ancestor (some panic) s h k = (panic, refl)
path_of-HasEnded ancestor (some (ok revert)) none h (x, k) = absurd (ground (arith, k))
path_of-HasEnded ancestor (some (ok revert)) (some (err e)) h k = (err e, refl)
path_of-HasEnded ancestor (some (ok revert)) (some panic) h k = (panic, refl)
path_of-HasEnded ancestor (some (ok revert)) (some (ok downs)) h k = (_, refl)

-- Over a map where the parent of every block is missing or has a smaller number, the path of a
-- reorganisation is computed to its end, with a path or an error, by any fuel above 10000, above the
-- limit of the depth and above one more than the number of the new head.
pub reorg_ends :
    (fuel : ℕ) (blocks : Dict Block) (old_head new_head : Hash) (r : ForkResolver)
    → IsAcyclic blocks
    → search_limit < fuel
    → r.max_reorg_depth < fuel
    → level blocks new_head < fuel
    → HasEnded (calculate_reorg_path fuel blocks old_head new_head r)
unfolding calculate_reorg_path find_common_ancestor
reorg_ends fuel blocks old_head new_head r acyclic searched depth height =
    let (answer, found) =
      search-HasEnded fuel blocks blocks old_head new_head [] [] acyclic tt (omega arith)
        (omega (arith, searched)) in
    elim (Option-cases answer) [
      | inl nowhere ↦ (err no_common_ancestor, rw (found, nowhere, calculate_reorg_path) refl)
      | inr (ancestor, at) ↦
          rw (found, at, calculate_reorg_path)
            (path_of-HasEnded ancestor _ _
              (walk_back-HasEnded fuel r.max_reorg_depth blocks ancestor old_head 0 (omega arith)
                (omega (arith, depth)))
              (walk_down-HasEnded fuel blocks ancestor new_head acyclic height))
    ]
