-- ===== src/Core/Block/Validity.antt =====
-- `Block::validate` and `Block::new` of crates/blockchain-core/src/block.rs.
use kainotes.Prelude.{
  ℕ, ◌+◌, ◌%◌, ◌≤◌, ◌<◌, ◌≡◌, refl, List, [], ◌∷◌, All, map, sum_of, arith, u64_mod, ◌==◌, not,
  if◌then◌else◌, inl, inr, ◌↔◌, ◌⊎◌,
}
use kainotes.Prelude.Result.{Result, ok, err, panic, fail_if, ◌>>=◌}
use kainotes.Core.Types.{Hash, Address, hash_bytes}
use kainotes.Core.Error.{BlockchainError, CryptoError, invalid_block, merkle_root_mismatch}
use kainotes.Core.Transaction.{Transaction, is_empty, validate_basic}
use kainotes.Core.Host.{Host, BlockHeader}
use kainotes.Core.Block
use kainotes.Core.Block.{
  Block, header_hash, validate_header, validate_all, validate_root, validate, total_gas,
  transactions_root, transaction_hash, from_crypto,
}
use kainotes.Crypto.Merkle
use kainotes.Crypto.Merkle.{MerkleTree}

empty_or :
    {A : Type 0} (txs : List A) (check : Result BlockchainError Unit)
    → (if is_empty txs then ok tt else check) ≡ ok tt
    → (txs ≡ []) ⊎ (check ≡ ok tt)
empty_or [] check h = inl refl
empty_or (tx ∷ txs) check h = inr h

or_empty :
    {A : Type 0} (txs : List A) (check : Result BlockchainError Unit)
    → (txs ≡ []) ⊎ (check ≡ ok tt)
    → (if is_empty txs then ok tt else check) ≡ ok tt
or_empty txs check (inl e) = rw e refl
or_empty [] check (inr h) = refl
or_empty (tx ∷ txs) check (inr h) = h

root_of_check :
    (e : BlockchainError) (x : Hash) (r : Result BlockchainError Hash)
    → (r >>= λ y. fail_if (not (y == x)) e) ≡ ok tt
    → r ≡ ok x
root_of_check e x r h = ground arith

validate_all-All :
    (txs : List Transaction)
    → validate_all txs ≡ ok tt
    → All (λ (tx : Transaction). validate_basic tx ≡ ok tt) txs
unfolding validate_all
validate_all-All [] h = tt
validate_all-All (tx ∷ txs) h = (ground (arith, h), validate_all-All txs (ground (arith, h)))

All-validate_all :
    (txs : List Transaction)
    → All (λ (tx : Transaction). validate_basic tx ≡ ok tt) txs
    → validate_all txs ≡ ok tt
unfolding validate_all
All-validate_all [] a = refl
All-validate_all (tx ∷ txs) (valid, rest) = rw valid (All-validate_all txs rest)

module _ (host : Host) where
  -- The number is the root of the Merkle tree over the hashes of the transactions.
  abbrev pub IsRootOf : Hash → List Transaction → Type 0
  IsRootOf x txs =
      (tree : MerkleTree) × (Merkle.new host.sha256
          (map (λ tx. hash_bytes (transaction_hash host tx)) txs)
        ≡ ok tree)
      × (Merkle.root tree ≡ ok x)

  root-IsRootOf :
      (x : Hash) (txs : List Transaction) → transactions_root host txs ≡ ok x → IsRootOf x txs
  unfolding transactions_root
  root-IsRootOf x txs h =
      split (Merkle.new host.sha256 (map (λ tx. hash_bytes (transaction_hash host tx)) txs)) h
    where
      split :
          (r : Result CryptoError MerkleTree)
          → (from_crypto r >>= λ tree. from_crypto (Merkle.root tree)) ≡ ok x
          → (tree : MerkleTree) × (r ≡ ok tree) × (Merkle.root tree ≡ ok x)
      split (ok tree) i = (tree, refl, ground (arith, i))
      split (err e) i = absurd (ground (arith, i))
      split panic i = absurd (ground (arith, i))

  IsRootOf-root :
      (x : Hash) (txs : List Transaction) → IsRootOf x txs → transactions_root host txs ≡ ok x
  unfolding transactions_root
  IsRootOf-root x txs (tree, built, top) = rw (built, top) refl

  -- A block that may follow its parent.
  pub record IsChild (b parent : Block) : Type 0 where
    pub number : b.header.number ≡ (parent.header.number + 1) % u64_mod
    pub parent_hash : b.header.parent_hash ≡ header_hash host parent.header
    pub later : parent.header.timestamp < b.header.timestamp
    pub gas_limit : b.header.gas_used ≤ b.header.gas_limit
    pub transactions : All (λ (tx : Transaction). validate_basic tx ≡ ok tt) b.transactions
    pub root : (b.transactions ≡ []) ⊎ IsRootOf b.header.transactions_root b.transactions
    pub gas_used :
        sum_of (λ (tx : Transaction). tx.gas_limit) b.transactions % u64_mod ≡ b.header.gas_used

  header_checks :
      (h parent : BlockHeader)
      → validate_header host h parent ≡ ok tt
      → (h.number ≡ (parent.number + 1) % u64_mod)
        × (h.parent_hash ≡ header_hash host parent)
        × (parent.timestamp < h.timestamp)
        × (h.gas_used ≤ h.gas_limit)
  unfolding validate_header
  header_checks h parent v = ground arith

  header_passes :
      (h parent : BlockHeader)
      → h.number ≡ (parent.number + 1) % u64_mod
      → h.parent_hash ≡ header_hash host parent
      → parent.timestamp < h.timestamp
      → h.gas_used ≤ h.gas_limit
      → validate_header host h parent ≡ ok tt
  unfolding validate_header
  header_passes h parent a b c d = ground arith

  root_checks :
      (b : Block)
      → validate_root host b ≡ ok tt
      → (b.transactions ≡ [])
        ⊎ (transactions_root host b.transactions ≡ ok b.header.transactions_root)
  unfolding validate_root
  root_checks b v =
      let check = transactions_root host b.transactions >>= λ y.
      fail_if (not (y == b.header.transactions_root)) (invalid_block merkle_root_mismatch) in
      elim (empty_or b.transactions check v) [
        | inl e ↦ inl e
        | inr h ↦ inr (
            root_of_check (invalid_block merkle_root_mismatch) b.header.transactions_root
              (transactions_root host b.transactions) h)
      ]

  root_passes :
      (b : Block)
      → (b.transactions ≡ [])
        ⊎ (transactions_root host b.transactions ≡ ok b.header.transactions_root)
      → validate_root host b ≡ ok tt
  unfolding validate_root
  root_passes b (inl e) = or_empty b.transactions _ (inl e)
  root_passes b (inr e) = or_empty b.transactions _ (inr (rw e (ground arith)))

  validate-parts :
      (b parent : Block)
      → validate host b parent ≡ ok tt
      → (validate_header host b.header parent.header ≡ ok tt)
        × (validate_all b.transactions ≡ ok tt)
        × (validate_root host b ≡ ok tt)
        × (total_gas b.transactions ≡ b.header.gas_used)
  unfolding validate
  validate-parts b parent v = ground arith

  validate-IsChild : (b parent : Block) → validate host b parent ≡ ok tt → IsChild b parent
  unfolding total_gas
  validate-IsChild b parent v =
      let (h, t, r, g) = validate-parts b parent v in
      let (number, parent_hash, later, limit) = header_checks b.header parent.header h in
      record {
        number = number;
        parent_hash = parent_hash;
        later = later;
        gas_limit = limit;
        transactions = validate_all-All b.transactions t;
        root = elim (root_checks b r) [
          | inl none_there ↦ inl none_there
          | inr computed ↦ inr (root-IsRootOf b.header.transactions_root b.transactions computed)
        ];
        gas_used = g;
      }

  IsChild-validate : (b parent : Block) → IsChild b parent → validate host b parent ≡ ok tt
  unfolding validate total_gas
  IsChild-validate b parent c =
      rw
        (
          header_passes b.header parent.header c.number c.parent_hash c.later c.gas_limit,
          All-validate_all b.transactions c.transactions,
          root_passes b (elim c.root [
            | inl none_there ↦ inl none_there
            | inr top ↦ inr (IsRootOf-root b.header.transactions_root b.transactions top)
          ]),
        )
        (ground (arith, c.gas_used))

  -- The validation of a block against its parent succeeds exactly when the number, as a 64-bit
  -- word, and the parent hash continue the parent, the timestamp is later, the gas used is at most
  -- the gas limit, every transaction passes `validate_basic`, the Merkle tree over the hashes of the
  -- transactions, if there are any, has the root of the header, and the gas limits add up, as a
  -- 64-bit word, to the gas used.
  pub validate_lem : (b parent : Block) → (validate host b parent ≡ ok tt) ↔ IsChild b parent
  validate_lem b parent = (validate-IsChild b parent, IsChild-validate b parent)

  new-fields :
      (now number : ℕ) (parent_hash state_root : Hash) (proposer : Address) (txs : List Transaction)
      (gas_limit : ℕ) (b : Block)
      → Block.new host now number parent_hash state_root proposer txs gas_limit ≡ ok b
      → ((txs ≡ []) ⊎ (transactions_root host txs ≡ ok b.header.transactions_root))
        × (b.header.number ≡ number)
        × (b.header.parent_hash ≡ parent_hash)
        × (b.header.timestamp ≡ now)
        × (b.header.gas_used ≡ total_gas txs)
        × (b.header.gas_limit ≡ gas_limit)
        × (b.transactions ≡ txs)
        × (b.header.state_root ≡ state_root)
  unfolding Block.new
  new-fields now number parent_hash state_root proposer txs gas_limit b h = ground arith

  -- A block that `Block::new` builds on a parent, with the number after it, as a 64-bit word, its
  -- hash, a later time, transactions that pass `validate_basic` and a gas limit that their sum keeps,
  -- is valid after that parent.
  pub new_validates :
      (now : ℕ) (parent : Block) (state_root : Hash) (proposer : Address) (txs : List Transaction)
      (gas_limit : ℕ) (b : Block)
      → parent.header.timestamp < now
      → validate_all txs ≡ ok tt
      → total_gas txs ≤ gas_limit
      → Block.new host now
          ((parent.header.number + 1) % u64_mod)
          (header_hash host parent.header)
          state_root
          proposer
          txs
          gas_limit
        ≡ ok b
      → validate host b parent ≡ ok tt
  unfolding total_gas
  new_validates now parent state_root proposer txs gas_limit b later valid limit h =
      let (root, number, parent_hash, time, used, limits, same, state) =
        new-fields now _ _ state_root proposer txs gas_limit b h in
      (validate_lem b parent).1 (record {
        number = number;
        parent_hash = parent_hash;
        later = ground (arith, time);
        gas_limit = ground (arith, used, limits);
        transactions = rw same (validate_all-All txs valid);
        root = rw same (elim root [
          | inl none_there ↦ inl none_there
          | inr computed ↦ inr (root-IsRootOf b.header.transactions_root txs computed)
        ]);
        gas_used = rw (same, used) refl;
      })
