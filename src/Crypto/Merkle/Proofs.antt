-- ===== src/Crypto/Merkle/Proofs.antt =====
-- Proofs and their check, crates/blockchain-crypto/src/merkle.rs, over a power of two of leaves.
use kainotes.Prelude.{
  leb, ℕ, zero, suc, ◌+◌, ◌-◌, ◌/◌, ◌%◌, ◌≤◌, ◌<◌, ◌≡◌, refl, ap, subst, ◌∙◌, Bool, true, false,
  List, [], ◌∷◌, arith, length, ◌==◌, if◌then◌else◌, Bool-cases, inl, inr,
}
use kainotes.Prelude.Result.{ok, ◌>>=◌}
use kainotes.Core.Types.{Bytes, Hash}
use kainotes.Crypto.Merkle.{
  Checked, combine_hashes, place_leaves, plant, build_tree, parent_index, sibling_index, new, root,
  proof, proof_path, climb, verify_proof, leaf_start, total_nodes,
}
use kainotes.Crypto.Merkle.Array.{
  read, zeros, length-zeros, set, get_or, read_lem, write_lem, length-set, get_or-set,
}
use kainotes.Crypto.Merkle.Power.{pow2, pow2_pos, next_power_of_two, next_power_of_two-pow2}
use kainotes.Crypto.Merkle.Build.{joined, IsBuilt, build_tree_lem}

-- `leaves[i]`
abbrev pub leaf_at : List Bytes → ℕ → Bytes
leaf_at [] i = []
leaf_at (x ∷ xs) zero = x
leaf_at (x ∷ xs) (suc i) = leaf_at xs i

module _ (sha256 : Bytes → Hash) where
  -- What the loop that hashes the leaves leaves in the array.
  pub record IsPlaced (leaves : List Bytes) (start : ℕ) (old new : List Hash) : Type 0 where
    pub same_length : length new ≡ length old
    before : (j : ℕ) → j < start → get_or new j ≡ get_or old j
    placed : (i : ℕ) → i < length leaves → get_or new (start + i) ≡ sha256 (leaf_at leaves i)

  place_step :
      (leaf : Bytes) (leaves : List Bytes) (start : ℕ) (old new : List Hash)
      → start < length old
      → IsPlaced leaves (start + 1) (set old start (sha256 leaf)) new
      → IsPlaced (leaf ∷ leaves) start old new
  place_step leaf leaves start old new h p = record {
    same_length = p.same_length ∙ length-set old start (sha256 leaf);
    before = λ j k. ground (arith, p.before j, get_or-set old start j (sha256 leaf) h);
    placed = placed_at;
  }
    where
      placed_at :
          (i : ℕ)
          → i < suc (length leaves)
          → get_or new (start + i) ≡ sha256 (leaf_at (leaf ∷ leaves) i)
      placed_at zero k =
          ground (arith, p.before (start + 0), get_or-set old start (start + 0) (sha256 leaf) h)
      placed_at (suc i) k =
          let e : start + suc i ≡ start + 1 + i = omega arith in
          ap (get_or new) e ∙ p.placed i (omega arith)

  pub place_leaves_lem :
      (leaves : List Bytes) (start : ℕ) (nodes : List Hash)
      → start + length leaves ≤ length nodes
      → (new : List Hash) × (place_leaves sha256 leaves start nodes ≡ ok new)
        × IsPlaced leaves start nodes new
  unfolding place_leaves
  place_leaves_lem [] start nodes h = (
    nodes,
    refl,
    record { same_length = refl; before = λ j k. refl; placed = λ i k. absurd (omega arith) },
  )
  place_leaves_lem (leaf ∷ leaves) start nodes h =
      let (new, e, p) =
        place_leaves_lem leaves (start + 1) (set nodes start (sha256 leaf))
          (omega (arith, length-set nodes start (sha256 leaf))) in
      (
        new,
        rw (write_lem nodes start (sha256 leaf) (omega arith)) e,
        place_step leaf leaves start nodes new (omega arith) p,
      )

  -- One step up: a node and its sibling combine to their parent, in the order that the parity of
  -- the node's number in its level tells.
  climb_step :
      (cur x half : ℕ) (nodes : List Hash)
      → cur + 1 ≡ half + half + x
      → x < half + half
      → half + half + half + half ≤ length nodes + 1
      → IsBuilt sha256 0 nodes
      → (if x % 2 == 0
          then combine_hashes sha256 (get_or nodes cur) (get_or nodes (sibling_index cur))
          else combine_hashes sha256 (get_or nodes (sibling_index cur)) (get_or nodes cur))
        ≡ get_or nodes (parent_index cur)
  climb_step cur x half nodes e h l b =
      let parent = parent_index cur in
      let built : get_or nodes parent ≡ joined sha256 nodes (parent + parent + 1) =
        b.node parent (omega arith) (omega arith) in
      elim (Bool-cases (x % 2 == 0)) [
        | inl left ↦
            let sib : sibling_index cur ≡ parent + parent + 1 + 1 = ground (arith, left) in
            let here : cur ≡ parent + parent + 1 = ground (arith, left) in
            rw left (cc (built, ap (get_or nodes) sib, ap (get_or nodes) here))
        | inr right ↦
            let sib : sibling_index cur ≡ parent + parent + 1 = ground (arith, right) in
            let here : cur ≡ parent + parent + 1 + 1 = ground (arith, right) in
            rw right (cc (built, ap (get_or nodes) sib, ap (get_or nodes) here))
      ]

  -- A way up from the node `cur`, which is number `x` of its level.
  climb_lem :
      (d f cur x : ℕ) (nodes : List Hash)
      → cur + 1 ≡ pow2 d + x
      → x < pow2 d
      → cur ≤ f
      → pow2 d + pow2 d ≤ length nodes + 1
      → IsBuilt sha256 0 nodes
      → (path : List Hash) × (proof_path f cur nodes ≡ ok path)
        × (climb sha256 (get_or nodes cur) x path ≡ get_or nodes 0)
  unfolding proof_path climb
  climb_lem zero zero cur x nodes e h k l b =
      let z : cur ≡ 0 = omega arith in ([], refl, ap (get_or nodes) z)
  climb_lem zero (suc f) cur x nodes e h k l b =
      let z : cur ≡ 0 = omega arith in
      let at_root : (cur == 0) ≡ true = ground arith in ([], rw at_root refl, ap (get_or nodes) z)
  climb_lem (suc d) zero cur x nodes e h k l b = absurd (omega (arith, pow2_pos d))
  climb_lem (suc d) (suc f) cur x nodes e h k l b =
      let parent = parent_index cur in
      let (path, e1, up) =
        climb_lem d f parent (x / 2) nodes (omega arith) (omega arith) (omega arith) (omega arith)
          b in
      let below_root : (cur == 0) ≡ false = ground (arith, pow2_pos d) in
      let in_bounds : sibling_index cur < length nodes = ground (arith, pow2_pos d) in
      let step = climb_step cur x (pow2 d) nodes e h (omega arith) b in
      (
        get_or nodes (sibling_index cur) ∷ path,
        rw (below_root, read_lem nodes (sibling_index cur) in_bounds, e1) refl,
        rw step up,
      )

  -- The tree over a power of two of leaves.
  record IsFull (leaves : List Bytes) (start : ℕ) (nodes : List Hash) : Type 0 where
    size : length nodes + 1 ≡ start + 1 + (start + 1)
    built : IsBuilt sha256 0 nodes
    leaf : (i : ℕ) → i < length leaves → get_or nodes (start + i) ≡ sha256 (leaf_at leaves i)

  plant_lem :
      (start total : ℕ) (leaves : List Bytes) (placed nodes : List Hash)
      → total - length leaves ≡ start
      → place_leaves sha256 leaves start (zeros total) ≡ ok placed
      → build_tree sha256 start start placed ≡ ok nodes
      → plant sha256 leaves total ≡ ok nodes
  unfolding plant
  plant_lem start total leaves placed nodes g e1 e2 = rw (g, e1) e2

  IsFull-tree :
      (k start total : ℕ) (leaves : List Bytes)
      → length leaves ≡ pow2 k
      → start + 1 ≡ pow2 k
      → total - length leaves ≡ start
      → total ≡ start + length leaves
      → (nodes : List Hash) × (plant sha256 leaves total ≡ ok nodes) × IsFull leaves start nodes
  IsFull-tree k start total leaves e s g h =
      let (placed, e1, p) =
        place_leaves_lem leaves start (zeros total) (omega (arith, length-zeros total)) in
      let size : length placed ≡ total = p.same_length ∙ length-zeros total in
      let bottom : IsBuilt sha256 start placed = record { node = λ j h c. absurd (omega arith) } in
      let (nodes, e2, t) =
        build_tree_lem sha256 k start start placed s (omega arith) (omega arith) bottom in
      (
        nodes,
        plant_lem start total leaves placed nodes g e1 e2,
        record {
          size = omega (arith, t.same_length);
          built = t.built;
          leaf = λ i h. t.kept (start + i) (omega arith) ∙ p.placed i h;
        },
      )

  new-IsFull :
      (k start : ℕ) (leaves : List Bytes)
      → length leaves ≡ pow2 k
      → start + 1 ≡ pow2 k
      → (nodes : List Hash) × (new sha256 leaves
          ≡ ok (record { nodes = nodes; leaf_count = length leaves }))
        × IsFull leaves start nodes
  unfolding new total_nodes
  new-IsFull k start leaves e s =
      let some_leaf : (length leaves == 0) ≡ false = ground (arith, pow2_pos k) in
      let power : next_power_of_two (length leaves) ≡ pow2 k =
        ap next_power_of_two e ∙ next_power_of_two-pow2 k in
      let (nodes, e1, f) =
        IsFull-tree k start (total_nodes (length leaves)) leaves e s (omega (arith, power))
          (omega (arith, power)) in
      (nodes, rw (some_leaf, e1) refl, f)

  proof_found :
      (start n i : ℕ) (leaf : Hash) (nodes path : List Hash)
      → i < n
      → length nodes - next_power_of_two n ≡ start
      → proof_path (start + i) (start + i) nodes ≡ ok path
      → read nodes (start + i) ≡ ok leaf
      → proof (record { nodes = nodes; leaf_count = n }) i
        ≡ ok (record { leaf_index = i; leaf_hash = leaf; proof_hashes = path })
  unfolding proof leaf_start
  proof_found start n i leaf nodes path h base e1 e2 =
      let in_range : leb n i ≡ false = ground arith in rw (in_range, base, e1, e2) refl

  proof_lem :
      (k start i : ℕ) (leaves : List Bytes) (nodes : List Hash)
      → length leaves ≡ pow2 k
      → start + 1 ≡ pow2 k
      → i < length leaves
      → IsFull leaves start nodes
      → (path : List Hash) × (proof (record { nodes = nodes; leaf_count = length leaves }) i
          ≡ ok (record {
            leaf_index = i;
            leaf_hash = sha256 (leaf_at leaves i);
            proof_hashes = path;
          }))
        × (climb sha256 (sha256 (leaf_at leaves i)) i path ≡ get_or nodes 0)
  proof_lem k start i leaves nodes e s h f =
      let base : length nodes - next_power_of_two (length leaves) ≡ start =
        omega (arith, ap next_power_of_two e, next_power_of_two-pow2 k, f.size) in
      let (path, e1, up) =
        climb_lem k (start + i) (start + i) i nodes (omega arith) (omega arith) (omega arith)
          (omega (arith, f.size)) f.built in
      let found : read nodes (start + i) ≡ ok (sha256 (leaf_at leaves i)) =
        read_lem nodes (start + i) (omega (arith, f.size)) ∙ ap ok (f.leaf i h) in
      (
        path,
        proof_found start (length leaves) i (sha256 (leaf_at leaves i)) nodes path h base e1 found,
        subst (λ x. climb sha256 x i path ≡ get_or nodes 0) (f.leaf i h) up,
      )

  -- What a client does: builds the tree, takes the proof of one leaf, and checks it with the root.
  unfoldable pub certify : List Bytes → ℕ → Bytes → Checked Bool
  certify leaves i leaf = do
    tree ← new sha256 leaves
    certificate ← proof tree i
    top ← root tree
    ok (verify_proof sha256 top certificate leaf)

  -- Over a power of two of leaves, the tree is built without a panic, every leaf has a proof, and
  -- the proof of a leaf is accepted with that leaf and the root.
  pub certify_leaf :
      (k i : ℕ) (leaves : List Bytes)
      → length leaves ≡ pow2 k
      → i < length leaves
      → certify leaves i (leaf_at leaves i) ≡ ok true
  unfolding certify root verify_proof
  certify_leaf k i leaves e h =
      let start = pow2 k - 1 in
      let s : start + 1 ≡ pow2 k = omega (arith, pow2_pos k) in
      let (nodes, e1, f) = new-IsFull k start leaves e s in
      let (path, e2, up) = proof_lem k start i leaves nodes e s h f in
      let top : read nodes 0 ≡ ok (get_or nodes 0) =
        read_lem nodes 0 (omega (arith, f.size, pow2_pos k)) in
      rw (e1, e2, top) (ground (arith, up))
