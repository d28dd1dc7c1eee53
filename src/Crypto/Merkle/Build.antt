-- ===== src/Crypto/Merkle/Build.antt =====
-- `build_tree` of crates/blockchain-crypto/src/merkle.rs.
use kainotes.Prelude.{
  ap, sym, ltb→lt, ◌⊎◌, ℕ, zero, suc, ◌+◌, ◌-◌, ◌*◌, ◌≤◌, ◌<◌, ◌≡◌, refl, ◌∙◌, true, false, List,
  arith, length, ltb, ◌==◌, if◌then◌else◌, Bool-cases, inl, inr, lt→ltb,
}
use kainotes.Prelude.Result.{ok}
use kainotes.Core.Types.{Bytes, Hash}
use kainotes.Crypto.Merkle.{combine_hashes, combined_at, merge_level, build_tree, parent_index}
use kainotes.Crypto.Merkle.Array.{set, get_or, read_lem, write_lem, length-set, get_or-set}
use kainotes.Crypto.Merkle.Power.{pow2, pow2_pos}

module _ (sha256 : Bytes → Hash) where
  -- The combination of the children at `left` and `left + 1`.
  abbrev pub joined : List Hash → ℕ → Hash
  joined nodes left = combine_hashes sha256 (get_or nodes left) (get_or nodes (left + 1))

  combined_at_lem :
      (nodes : List Hash) (left : ℕ)
      → left + 1 < length nodes
      → combined_at sha256 nodes left ≡ ok (joined nodes left)
  unfolding combined_at
  combined_at_lem nodes left h =
      rw
        (
          lt→ltb (left + 1) (length nodes) h,
          read_lem nodes left (omega arith),
          read_lem nodes (left + 1) h,
        )
        refl

  -- A level with all its children in bounds.
  record Fits (n i ls ps : ℕ) (nodes : List Hash) : Type 0 where
    children : ls + 2 * (i + n) ≤ length nodes
    below : ps + i + n ≤ ls

  -- What a merged level holds.
  record IsMerged (n i ls ps : ℕ) (old new : List Hash) : Type 0 where
    same_length : length new ≡ length old
    outside : (j : ℕ) → j < ps + i ⊎ ps + i + n ≤ j → get_or new j ≡ get_or old j
    inside : (j : ℕ) → i ≤ j → j < i + n → get_or new (ps + j) ≡ joined old (ls + j * 2)

  module _ (n i ls ps : ℕ) (nodes new : List Hash) (f : Fits (suc n) i ls ps nodes)
      (m : IsMerged n (i + 1) ls ps (set nodes (ps + i) (joined nodes (ls + i * 2))) new) where
    -- The one write of a round.
    round_write :
        (j : ℕ)
        → get_or (set nodes (ps + i) (joined nodes (ls + i * 2))) j
          ≡ (if ps + i == j then joined nodes (ls + i * 2) else get_or nodes j)
    round_write j =
        get_or-set nodes (ps + i) j (joined nodes (ls + i * 2)) (omega (arith, f.children, f.below))

    round_children :
        (j : ℕ)
        → joined (set nodes (ps + i) (joined nodes (ls + i * 2))) (ls + j * 2)
          ≡ joined nodes (ls + j * 2)
    round_children j =
        ground (arith, round_write (ls + j * 2), round_write (ls + j * 2 + 1), f.below)

    merged_inside :
        (j : ℕ) → i ≤ j → j < i + suc n → get_or new (ps + j) ≡ joined nodes (ls + j * 2)
    merged_inside j h k = elim (Bool-cases (i == j)) [
      | inl first ↦ ground (arith, first, m.outside (ps + j), round_write (ps + j))
      | inr later ↦ ground (arith, later, m.inside j, round_children j)
    ]

    merged_outside : (j : ℕ) → j < ps + i ⊎ ps + i + suc n ≤ j → get_or new j ≡ get_or nodes j
    merged_outside j h = ground (arith, m.outside j, round_write j)

    IsMerged-step : IsMerged (suc n) i ls ps nodes new
    IsMerged-step = record {
      same_length = m.same_length ∙ length-set nodes (ps + i) (joined nodes (ls + i * 2));
      outside = merged_outside;
      inside = merged_inside;
    }

  merge_level_lem :
      (n i ls ps : ℕ) (nodes : List Hash)
      → Fits n i ls ps nodes
      → (new : List Hash) × (merge_level sha256 n i ls ps nodes ≡ ok new)
        × IsMerged n i ls ps nodes new
  unfolding merge_level
  merge_level_lem zero i ls ps nodes f = (
    nodes,
    refl,
    record { same_length = refl; outside = λ j h. refl; inside = λ j h k. absurd (omega arith) },
  )
  merge_level_lem (suc n) i ls ps nodes f =
      let v = joined nodes (ls + i * 2) in
      let merged = set nodes (ps + i) v in
      let bound : ps + i < length nodes = omega (arith, f.children, f.below) in
      let fits : Fits n (i + 1) ls ps merged = record {
        children = omega (arith, length-set nodes (ps + i) v, f.children);
        below = omega (arith, f.below);
      } in
      let (new, e, m) = merge_level_lem n (i + 1) ls ps merged fits in
      (
        new,
        rw
            (
              combined_at_lem nodes (ls + i * 2) (omega (arith, f.children)),
              write_lem nodes (ps + i) v bound,
            )
            e,
        IsMerged-step n i ls ps nodes new f m,
      )

  -- From the index `start` on, a node with two children in bounds is their combination.
  pub record IsBuilt (start : ℕ) (nodes : List Hash) : Type 0 where
    pub node :
        (j : ℕ) → start ≤ j → j + j + 2 < length nodes → get_or nodes j ≡ joined nodes (j + j + 1)

  -- The level of the nodes `ls` to `2 * ls`, below its parents from `ps` on.
  module _ (ls ps : ℕ) (old new : List Hash) (half : ls ≡ ps + ps + 1) (b : IsBuilt ls old)
      (m : IsMerged (ls - ps) 0 ls ps old new) where
    level_kept : (j : ℕ) → ls ≤ j → get_or new j ≡ get_or old j
    level_kept j h = m.outside j (inr (omega arith))

    joined_kept : (j : ℕ) → ls ≤ j → joined new j ≡ joined old j
    joined_kept j h = cc (level_kept j h, level_kept (j + 1) (omega arith))

    parent_joined : (i : ℕ) → i < ls - ps → get_or new (ps + i) ≡ joined old (ls + i * 2)
    parent_joined i h = m.inside i (omega arith) (omega arith)

    parent_built : (j : ℕ) → ps ≤ j → j < ls → get_or new j ≡ joined old (j + j + 1)
    parent_built j h k =
        let here : ps + (j - ps) ≡ j = omega arith in
        let left : ls + (j - ps) * 2 ≡ j + j + 1 = omega arith in
        ap (get_or new) (sym here) ∙ parent_joined (j - ps) (omega arith) ∙ ap (joined old) left

    level_node : (j : ℕ) → ps ≤ j → j + j + 2 < length new → get_or new j ≡ joined new (j + j + 1)
    level_node j h k = elim (Bool-cases (ltb j ls)) [
      | inl parent ↦
          parent_built j h (ltb→lt j ls parent) ∙ sym (joined_kept (j + j + 1) (omega arith))
      | inr lower ↦
          let above : ls ≤ j = ground (arith, lower) in
          level_kept j above
          ∙ b.node j above (omega (arith, m.same_length))
          ∙ sym (joined_kept (j + j + 1) (omega arith))
    ]

    level-IsBuilt : IsBuilt ps new
    level-IsBuilt = record { node = level_node }

  -- What the whole loop leaves: all nodes built, and the bottom level as it was.
  pub record IsTree (ls : ℕ) (old new : List Hash) : Type 0 where
    pub same_length : length new ≡ length old
    pub built : IsBuilt 0 new
    pub kept : (j : ℕ) → ls ≤ j → get_or new j ≡ get_or old j

  IsTree-root : (ls : ℕ) (nodes : List Hash) → ls ≡ 0 → IsBuilt ls nodes → IsTree ls nodes nodes
  IsTree-root ls nodes e b = record {
    same_length = refl;
    built = record { node = λ j h k. b.node j (omega arith) k };
    kept = λ j h. refl;
  }

  IsTree-level :
      (ls ps : ℕ) (old merged new : List Hash)
      → ls ≡ ps + ps + 1
      → IsBuilt ls old
      → IsMerged (ls - ps) 0 ls ps old merged
      → IsTree ps merged new
      → IsTree ls old new
  IsTree-level ls ps old merged new half b m t = record {
    same_length = t.same_length ∙ m.same_length;
    built = t.built;
    kept = λ j h. t.kept j (omega arith) ∙ level_kept ls ps old merged half b m j h;
  }

  pub build_tree_lem :
      (d f ls : ℕ) (nodes : List Hash)
      → ls + 1 ≡ pow2 d
      → ls ≤ f
      → pow2 d + pow2 d ≤ length nodes + 1
      → IsBuilt ls nodes
      → (new : List Hash) × (build_tree sha256 f ls nodes ≡ ok new) × IsTree ls nodes new
  unfolding build_tree
  build_tree_lem zero zero ls nodes e h k b = (nodes, refl, IsTree-root ls nodes (omega arith) b)
  build_tree_lem zero (suc f) ls nodes e h k b =
      let at_root : (ls == 0) ≡ true = ground arith in
      (nodes, rw at_root refl, IsTree-root ls nodes (omega arith) b)
  build_tree_lem (suc d) zero ls nodes e h k b = absurd (omega (arith, pow2_pos d))
  build_tree_lem (suc d) (suc f) ls nodes e h k b =
      let ps = parent_index ls in
      let half : ls ≡ ps + ps + 1 = omega (arith, pow2_pos d) in
      let fits : Fits (ls - ps) 0 ls ps nodes = record {
        children = omega arith;
        below = omega arith;
      } in
      let (merged, e1, m) = merge_level_lem (ls - ps) 0 ls ps nodes fits in
      let (new, e2, t) =
        build_tree_lem d f ps merged (omega arith) (omega arith) (omega (arith, m.same_length))
          (level-IsBuilt ls ps nodes merged half b m) in
      let positive : (ls == 0) ≡ false = ground arith in
      (new, rw (positive, e1) e2, IsTree-level ls ps nodes merged new half b m t)
