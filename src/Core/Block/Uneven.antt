-- ===== src/Core/Block/Uneven.antt =====
-- `Block::new` and `Block::validate` on a number of transactions that is no power of two.
use kainotes.Prelude.{ℕ, suc, ◌<◌, ◌≡◌, refl, List, [], ◌∷◌, map, arith, length}
use kainotes.Prelude.Result.{panic}
use kainotes.Core.Types.{Hash, Address, hash_bytes}
use kainotes.Core.Transaction.{Transaction}
use kainotes.Core.Host.{Host}
use kainotes.Core.Block
use kainotes.Core.Block.{transactions_root, transaction_hash}
use kainotes.Crypto.Merkle.Power.{pow2}
use kainotes.Crypto.Merkle.Uneven as Tree

length-map : {A B : Type 0} (f : A → B) (xs : List A) → length (map f xs) ≡ length xs
length-map f [] = refl
length-map f (x ∷ xs) = omega (arith, length-map f xs)

module _ (host : Host) where
  transactions_root_uneven :
      (k : ℕ) (txs : List Transaction)
      → pow2 k < length txs
      → length txs < pow2 (suc k)
      → transactions_root host txs ≡ panic
  unfolding transactions_root
  transactions_root_uneven k txs h l =
      let same = length-map (λ tx. hash_bytes (transaction_hash host tx)) txs in
      rw
        (Tree.new_uneven host.sha256 k (map (λ tx. hash_bytes (transaction_hash host tx)) txs)
          (omega (arith, same, h)) (omega (arith, same, l)))
        refl

  -- `Block::new` panics on every list of transactions whose length lies strictly between two powers
  -- of two.
  block_new_uneven :
      (now number : ℕ) (parent_hash state_root : Hash) (proposer : Address) (k : ℕ)
      (txs : List Transaction) (gas_limit : ℕ)
      → pow2 k < length txs
      → length txs < pow2 (suc k)
      → Block.new host now number parent_hash state_root proposer txs gas_limit ≡ panic
  unfolding Block.new
  block_new_uneven now number parent_hash state_root proposer k [] gas_limit h l =
      absurd (omega arith)
  block_new_uneven now number parent_hash state_root proposer k (tx ∷ txs) gas_limit h l =
      rw (transactions_root_uneven k (tx ∷ txs) h l) refl
