-- ===== src/Crypto/Merkle/Tests.antt =====
-- Runs of the Merkle tree, and its theorems at four and at three leaves.
use kainotes.Prelude.{◌≡◌, refl, true, false, List, [], ◌∷◌, arith}
use kainotes.Prelude.Result.{ok}
use kainotes.Core.Types.{Bytes, hash_bytes}
use kainotes.Core.Samples.{weigh}
use kainotes.Crypto.Merkle.{new, plant, total_nodes, proof, leaf_start, root, verify_proof}
use kainotes.Crypto.Merkle.Power.{next_power_of_two}
use kainotes.Crypto.Merkle.Proofs.{certify, certify_leaf}

abbrev four_leaves : List Bytes
four_leaves = (1 ∷ []) ∷ (2 ∷ []) ∷ (3 ∷ 1 ∷ []) ∷ [] ∷ []

abbrev three_leaves : List Bytes
three_leaves = (1 ∷ []) ∷ (2 ∷ []) ∷ (3 ∷ []) ∷ []

wrong_leaf_is_rejected : certify weigh four_leaves 2 (9 ∷ []) ≡ ok false
unfolding certify new total_nodes next_power_of_two proof leaf_start root verify_proof hash_bytes
    plant
wrong_leaf_is_rejected = refl

certify_leaf_example : certify weigh four_leaves 2 (3 ∷ 1 ∷ []) ≡ ok true
certify_leaf_example = certify_leaf weigh 2 2 four_leaves refl (omega arith)
