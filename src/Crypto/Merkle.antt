-- ===== src/Crypto/Merkle.antt =====
-- crates/blockchain-crypto/src/merkle.rs: a Merkle tree in one array, its proofs and their check.
-- An index out of bounds is a panic. A `while` loop on an index takes the index as its fuel, which
-- suffices as each round makes the index smaller.
pub mod Array
pub mod Power
pub mod Build
pub mod Proofs
pub mod Uneven
mod Tests
use kainotes.Prelude.{
  ℕ, zero, suc, ◌+◌, ◌-◌, ◌*◌, ◌/◌, ◌%◌, Bool, true, false, List, [], ◌∷◌, ◌++◌, ltb, leb, ◌==◌,
  length, if◌then◌else◌,
}
use kainotes.Prelude.Result.{Result, ok, err, panic, fail_if, ◌>>=◌, ◌>>◌}
use kainotes.Core.Types.{Bytes, Hash, zero_hash, hash_bytes}
use kainotes.Core.Error.{CryptoError, empty_tree, index_out_of_bounds}
use Array.{read, write, zeros}
use Power.{next_power_of_two}

abbrev pub Checked : Type 0 → Type 0
Checked = Result CryptoError

pub record MerkleTree : Type 0 where
  pub nodes : List Hash
  pub leaf_count : ℕ

pub record MerkleProof : Type 0 where
  pub leaf_index : ℕ
  pub leaf_hash : Hash
  pub proof_hashes : List Hash

unfoldable pub total_nodes : ℕ → ℕ
total_nodes leaf_count = 2 * next_power_of_two leaf_count - 1

-- the method `leaf_start`
unfoldable pub leaf_start : MerkleTree → ℕ
leaf_start tree = length tree.nodes - next_power_of_two tree.leaf_count

abbrev pub parent_index : ℕ → ℕ
parent_index index = (index - 1) / 2

abbrev pub sibling_index : ℕ → ℕ
sibling_index index = if index % 2 == 0 then index - 1 else index + 1

unfoldable pub root : MerkleTree → Checked Hash
unfolding read
root tree = read tree.nodes 0

-- the `while` loop of `proof`, with its fuel first
unfoldable pub proof_path : ℕ → ℕ → List Hash → Checked (List Hash)
unfolding read
proof_path zero current nodes = ok []
proof_path (suc fuel) current nodes =
    let rest = (do
      sibling ← read nodes (sibling_index current)
      path ← proof_path fuel (parent_index current) nodes
      ok (sibling ∷ path)) in
    if current == 0 then ok [] else rest

unfoldable pub proof : MerkleTree → ℕ → Checked MerkleProof
unfolding proof_path read
proof tree index = do
  fail_if (leb tree.leaf_count index) index_out_of_bounds
  let current = leaf_start tree + index
  path ← proof_path current current tree.nodes
  leaf_hash ← read tree.nodes current
  ok (record { leaf_index = index; leaf_hash = leaf_hash; proof_hashes = path })

module _ (sha256 : Bytes → Hash) where
  unfoldable pub combine_hashes : Hash → Hash → Hash
  combine_hashes left right = sha256 (hash_bytes left ++ hash_bytes right)

  -- the loop of `new` that hashes the leaves
  unfoldable pub place_leaves : List Bytes → ℕ → List Hash → Checked (List Hash)
  unfolding write
  place_leaves [] start nodes = ok nodes
  place_leaves (leaf ∷ leaves) start nodes = do
    placed ← write nodes start (sha256 leaf)
    place_leaves leaves (start + 1) placed

  -- the value of `combined` in the inner loop of `build_tree`
  unfoldable pub combined_at : List Hash → ℕ → Checked Hash
  unfolding read
  combined_at nodes left =
      if ltb (left + 1) (length nodes)
      then (do l ← read nodes left; r ← read nodes (left + 1); ok (combine_hashes l r))
      else read nodes left

  -- the inner loop of `build_tree`, with the rounds left first
  unfoldable pub merge_level : ℕ → ℕ → ℕ → ℕ → List Hash → Checked (List Hash)
  unfolding combined_at write
  merge_level zero i level_start parent_start nodes = ok nodes
  merge_level (suc n) i level_start parent_start nodes = do
    combined ← combined_at nodes (level_start + i * 2)
    merged ← write nodes (parent_start + i) combined
    merge_level n (i + 1) level_start parent_start merged

  -- the `while` loop of `build_tree`, with its fuel first
  unfoldable pub build_tree : ℕ → ℕ → List Hash → Checked (List Hash)
  unfolding merge_level
  build_tree zero level_start nodes = ok nodes
  build_tree (suc fuel) level_start nodes =
      let parent_start = parent_index level_start in
      let rest = (do
        merged ← merge_level (level_start - parent_start) 0 level_start parent_start nodes
        build_tree fuel parent_start merged) in
      if level_start == 0 then ok nodes else rest

  -- the array of `new`, with its length
  unfoldable pub plant : List Bytes → ℕ → Checked (List Hash)
  unfolding place_leaves build_tree
  plant leaves total = do
    let start = total - length leaves
    placed ← place_leaves leaves start (zeros total)
    build_tree start start placed

  unfoldable pub new : List Bytes → Checked MerkleTree
  new leaves = do
    let leaf_count = length leaves
    fail_if (leaf_count == 0) empty_tree
    nodes ← plant leaves (total_nodes leaf_count)
    ok (record { nodes = nodes; leaf_count = leaf_count })

  -- the `for` loop of `verify_proof`
  unfoldable pub climb : Hash → ℕ → List Hash → Hash
  unfolding combine_hashes
  climb current index [] = current
  climb current index (h ∷ hashes) =
      climb (if index % 2 == 0 then combine_hashes current h else combine_hashes h current)
        (index / 2) hashes

  unfoldable pub verify_proof : Hash → MerkleProof → Bytes → Bool
  unfolding climb
  verify_proof root proof leaf =
      if sha256 leaf == proof.leaf_hash
      then climb (sha256 leaf) proof.leaf_index proof.proof_hashes == root
      else false
