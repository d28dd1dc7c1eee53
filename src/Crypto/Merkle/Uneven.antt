-- ===== src/Crypto/Merkle/Uneven.antt =====
-- `MerkleTree::new` of crates/blockchain-crypto/src/merkle.rs over other numbers of leaves.
use kainotes.Prelude.{
  ℕ, zero, suc, ◌+◌, ◌-◌, ◌*◌, ◌≤◌, ◌<◌, ◌≡◌, refl, false, List, arith, length, ltb, ◌==◌, ◌⊎◌,
  Bool-cases, inl, inr,
}
use kainotes.Prelude.Result.{ok, panic}
use kainotes.Core.Types.{Bytes, Hash}
use kainotes.Crypto.Merkle.{
  combined_at, merge_level, build_tree, plant, parent_index, new, total_nodes,
}
use kainotes.Crypto.Merkle.Array.{
  write, set, zeros, length-zeros, get_or, read_lem, read_out, write_lem, write_out, length-set,
}
use kainotes.Crypto.Merkle.Power.{
  pow2, pow2_pos, pow2_squeeze, next_power_of_two, next_power_of_two_lem,
}
use kainotes.Crypto.Merkle.Build.{joined}
use kainotes.Crypto.Merkle.Proofs.{place_leaves_lem}

pow2_next : (k m : ℕ) → pow2 k < pow2 m → pow2 (suc k) ≤ pow2 m
pow2_next zero zero h = absurd (omega arith)
pow2_next zero (suc m) h = omega (arith, pow2_pos m)
pow2_next (suc k) zero h = absurd (omega (arith, pow2_pos k))
pow2_next (suc k) (suc m) h = omega (arith, pow2_next k m (omega arith))

-- Between two powers of two the next one is the upper.
padded : (k n : ℕ) → pow2 k < n → n < pow2 (suc k) → next_power_of_two n ≡ pow2 (suc k)
padded k n h l =
    let (m, e, above, below) = next_power_of_two_lem n (omega arith) in
    omega (arith, e, pow2_squeeze (suc k) m (pow2_next k m (omega arith)) (omega arith))

module _ (sha256 : Bytes → Hash) where
  -- A read of two children gives a value or panics.
  combined_cases :
      (nodes : List Hash) (left : ℕ)
      → ((v : Hash) × (combined_at sha256 nodes left ≡ ok v))
        ⊎ (combined_at sha256 nodes left ≡ panic)
  unfolding combined_at
  combined_cases nodes left = elim (Bool-cases (ltb (left + 1) (length nodes))) [
    | inl two ↦ inl (
      joined sha256 nodes left,
      rw
          (
            two,
            read_lem nodes left (ground (arith, two)),
            read_lem nodes (left + 1) (ground (arith, two)),
          )
          refl,
    )
    | inr one ↦ elim (Bool-cases (ltb left (length nodes))) [
      | inl last ↦
          inl (get_or nodes left, rw (one, read_lem nodes left (ground (arith, last))) refl)
      | inr past ↦ inr (rw (one, read_out nodes left (ground (arith, past))) refl)
    ]
  ]

  combined_past :
      (nodes : List Hash) (left : ℕ) → length nodes ≤ left → combined_at sha256 nodes left ≡ panic
  unfolding combined_at
  combined_past nodes left h =
      let past : ltb (left + 1) (length nodes) ≡ false = ground arith in
      rw (past, read_out nodes left h) refl

  write_cases :
      (nodes : List Hash) (i v : ℕ)
      → (write nodes i v ≡ ok (set nodes i v)) ⊎ (write nodes i v ≡ panic)
  write_cases nodes i v = elim (Bool-cases (ltb i (length nodes))) [
    | inl inside ↦ inl (write_lem nodes i v (ground (arith, inside)))
    | inr past ↦ inr (write_out nodes i v (ground (arith, past)))
  ]

  -- A level whose last pair of children is past the end panics.
  merge_past :
      (n i ls ps : ℕ) (nodes : List Hash)
      → length nodes ≤ ls + (i + n) * 2
      → merge_level sha256 (suc n) i ls ps nodes ≡ panic
  unfolding merge_level
  merge_past zero i ls ps nodes h = rw (combined_past nodes (ls + i * 2) (omega arith)) refl
  merge_past (suc n) i ls ps nodes h = elim (combined_cases nodes (ls + i * 2)) [
    | inr past ↦ rw past refl
    | inl (v, e) ↦ elim (write_cases nodes (ps + i) v) [
      | inr past ↦ rw (e, past) refl
      | inl w ↦
          rw (e, w)
            (merge_past n (i + 1) ls ps (set nodes (ps + i) v)
              (omega (arith, length-set nodes (ps + i) v)))
    ]
  ]

  build_past :
      (f ls : ℕ) (nodes : List Hash)
      → 0 < ls
      → length nodes + 1 ≤ ls + ls
      → build_tree sha256 (suc f) ls nodes ≡ panic
  unfolding build_tree
  build_past f ls nodes h l =
      let some_level : (ls == 0) ≡ false = ground arith in
      let ps = parent_index ls in
      let size : ls - ps ≡ suc (ls - ps - 1) = omega arith in
      rw (some_level, size, merge_past (ls - ps - 1) 0 ls ps nodes (omega arith)) refl

  plant_past :
      (start total : ℕ) (leaves : List Bytes)
      → total - length leaves ≡ suc start
      → total ≡ suc start + length leaves
      → total + 1 ≤ suc start + suc start
      → plant sha256 leaves total ≡ panic
  unfolding plant
  plant_past start total leaves g h l =
      let (placed, e, p) =
        place_leaves_lem sha256 leaves (suc start) (zeros total)
          (omega (arith, length-zeros total)) in
      rw (g, e)
        (build_past start (suc start) placed (omega arith)
          (omega (arith, p.same_length, length-zeros total)))

  -- For every number of leaves strictly between two powers of two, building the tree panics.
  pub new_uneven :
      (k : ℕ) (leaves : List Bytes)
      → pow2 k < length leaves
      → length leaves < pow2 (suc k)
      → new sha256 leaves ≡ panic
  unfolding new total_nodes
  new_uneven k leaves h l =
      let some_leaf : (length leaves == 0) ≡ false = ground arith in
      let p = padded k (length leaves) h l in
      let total = total_nodes (length leaves) in
      let start = total - length leaves - 1 in
      rw
        (
          some_leaf,
          plant_past start total leaves (omega (arith, p)) (omega (arith, p)) (omega (arith, p)),
        )
        refl
