-- ===== src/Consensus/Poas/Finality.antt =====
-- What the justified checkpoint of crates/consensus/src/poas.rs protects.
use kainotes.Prelude.{
  ℕ, ◌-◌, ◌≤◌, ◌<◌, ◌≡◌, refl, sym, ◌∙◌, Bool, true, false, Option, none, some, List, [], ◌∷◌,
  arith, ltb, leb, All, Option-cases, Bool-cases, inl, inr,
}
use kainotes.Prelude.Result.{Result, ok, err, panic}
use kainotes.Prelude.Result.Exec.{◌>>=◌, ◌>>◌, lift, gets, reject_if}
use kainotes.Core.Types.{Address, Amount}
use kainotes.Core.Host.{Host}
use kainotes.Core.Block.{Block}
use kainotes.Core.Fork.{ReorgPath}
use kainotes.Core.Error.{reorg_too_deep}
use kainotes.Consensus.Error.{ConsensusError, blockchain_error}
use kainotes.Core.Mempool.{TransactionPool}
use kainotes.Consensus.Validator.{ValidatorSet, get_validator}
use kainotes.Consensus.Slashing.{SlashingManager, SlashExec, slash_validator}
use kainotes.Consensus.Poas.Keeps.{apply_reorg-keeps, finalize_block-keeps}
use kainotes.Consensus.Poas.{
  produce_block, verify_before_produce, is_finalized, update_justified_checkpoint,
  register_validator, unregister_validator, PoasConsensus, slash_in, credit, finalize_block,
  process_epoch_transition, PoasExec,
}
use kainotes.Consensus.Poas.Reorg.{
  Persist, punish_all, note_reorg, resolve, is_behind, apply_reorg, ancestor_number, min_number,
}

min_number-lower :
    (n : ℕ) (b : Block) (bs : List Block)
    → 0 < n
    → n ≤ min_number b bs - 1
    → All (λ (x : Block). n < x.header.number) (b ∷ bs)
min_number-lower n b [] pos h = (omega (arith, pos, h), tt)
min_number-lower n b (x ∷ bs) pos h =
    (omega (arith, pos, h), min_number-lower n x bs pos (omega (arith, h)))

ancestor_number-lower :
    (j n : ℕ) (p : ReorgPath)
    → 0 < j
    → ancestor_number p ≡ ok n
    → j ≤ n
    → All (λ (b : Block). j < b.header.number) p.revert_blocks
unfolding ancestor_number
ancestor_number-lower j n p pos h le = split p.revert_blocks refl
  where
    split : (bs : List Block) → p.revert_blocks ≡ bs → All (λ (b : Block). j < b.header.number) bs
    split [] e = tt
    split (b ∷ bs) e =
        let found : ok (min_number b bs - 1) ≡ ok n = sym (rw (e, ancestor_number) refl) ∙ h in
        min_number-lower j b bs pos (ground (arith, found, le))

-- Under a justified checkpoint above the genesis, a reorganisation that returns reverts only blocks
-- with a number above the checkpoint's.
pub apply_reorg-above_justified :
    (host : Host) (now j : ℕ) (p : ReorgPath) (persist : Option Persist) (c d : PoasConsensus)
    → 0 < j
    → c.highest_justified ≡ some j
    → apply_reorg host now p persist c ≡ (ok tt, d)
    → All (λ (b : Block). j < b.header.number) p.revert_blocks
unfolding apply_reorg
apply_reorg-above_justified host now j p persist c d pos e h = split (ancestor_number p) refl h
  where
    go_on : ℕ → PoasExec Unit
    go_on number =
        punish_all host now p.apply_blocks p.revert_blocks >> resolve host number p persist

    passed :
        (number : ℕ)
        → (reject_if
                (is_behind number c.highest_justified)
                (blockchain_error (reorg_too_deep p.depth))
              >> go_on number)
            c
          ≡ (ok tt, d)
        → j ≤ number
    passed number g = elim (Bool-cases (ltb number j)) [
      | inl low ↦
          let failed : (err (blockchain_error (reorg_too_deep p.depth)), c) ≡ (ok tt, d) =
            sym (rw (e, low) refl) ∙ g in
          absurd cc
      | inr high ↦ ground (arith, high)
    ]

    split :
        (r : Result ConsensusError ℕ)
        → ancestor_number p ≡ r
        → (lift r >>= λ number. gets (λ (c : PoasConsensus). c.highest_justified) >>= λ justified.
              reject_if (is_behind number justified) (blockchain_error (reorg_too_deep p.depth))
              >> go_on number)
            c
          ≡ (ok tt, d)
        → All (λ (b : Block). j < b.header.number) p.revert_blocks
    split (ok number) f g = ancestor_number-lower j number p pos f (passed number g)
    split (err x) f g = cc
    split panic f g = cc

-- Whether a checkpoint at or above a number is justified.
abbrev pub covers : ℕ → Option ℕ → Bool
covers n none = false
covers n (some j) = leb n j

-- The public methods that may change the engine. The first number is the clock's reading; a block is
-- produced out of a pool; and the references to the set of validators and to the slashing manager
-- that the engine gives out may put anything into them.
pub data EngineCall : Type 0 where
  finalizes : ℕ → Block → EngineCall
  justifies : ℕ → ℕ → EngineCall
  reorganises : ℕ → ReorgPath → Option Persist → EngineCall
  registers : ℕ → Address → Amount → ℕ → EngineCall
  unregisters : Address → EngineCall
  produces : ℕ → Block → Address → TransactionPool → EngineCall
  edits_validators : (ValidatorSet → ValidatorSet) → EngineCall
  edits_slashing : (SlashingManager → SlashingManager) → EngineCall

slash_in-justified :
    {A : Type 0} (k : Address) (m : SlashExec A) (c : PoasConsensus)
    → (slash_in k m c).1.highest_justified ≡ c.highest_justified
slash_in-justified k m c = elim (Option-cases (get_validator k c.validator_set)) [
  | inl missing ↦ rw missing refl
  | inr (v, found) ↦ rw found refl
]

produce_block-justified :
    (host : Host) (now : ℕ) (parent : Block) (proposer : Address) (c : PoasConsensus)
    (pool : TransactionPool)
    → (produce_block host now parent proposer (c, pool)).1.0.highest_justified ≡ c.highest_justified
unfolding produce_block verify_before_produce
produce_block-justified host now parent proposer c pool = ground arith

module _ (host : Host) where
  abbrev pub call : EngineCall → PoasConsensus → PoasConsensus
  call (finalizes now block) c = (finalize_block now block c).1
  call (justifies now n) c = update_justified_checkpoint now n c
  call (reorganises now p persist) c = (apply_reorg host now p persist c).1
  call (registers now k stake rate) c = (register_validator now k stake rate c).1
  call (unregisters k) c = (unregister_validator k c).1
  call (produces now parent proposer pool) c =
      (produce_block host now parent proposer (c, pool)).1.0
  call (edits_validators f) c = record c { validator_set = f c.validator_set }
  call (edits_slashing f) c = record c { slashing = f c.slashing }

  abbrev pub calls : List EngineCall → PoasConsensus → PoasConsensus
  calls [] c = c
  calls (x ∷ xs) c = calls xs (call x c)

  call-covers :
      (n : ℕ) (x : EngineCall) (c : PoasConsensus)
      → covers n c.highest_justified ≡ true
      → covers n (call x c).highest_justified ≡ true
  unfolding process_epoch_transition update_justified_checkpoint resolve note_reorg
      register_validator unregister_validator
  call-covers n (finalizes now block) c h =
      finalize_block-keeps (λ (d : PoasConsensus). covers n d.highest_justified ≡ true) now block c
        (λ k max i. rw (slash_in-justified k (credit now max) c) i) (λ d i. i) h
  call-covers n (justifies now m) c h = ground (arith, h)
  call-covers n (reorganises now p persist) c h =
      apply_reorg-keeps (λ (d : PoasConsensus). covers n d.highest_justified ≡ true) host now
        (λ k condition evidence d i.
          rw (slash_in-justified k (slash_validator now condition evidence) d) i)
        p persist c (λ m d i. ground (arith, i)) h
  call-covers n (registers now k stake rate) c h = ground (arith, h)
  call-covers n (unregisters k) c h = ground (arith, h)
  call-covers n (produces now parent proposer pool) c h =
      rw (produce_block-justified host now parent proposer c pool) h
  call-covers n (edits_validators f) c h = h
  call-covers n (edits_slashing f) c h = h

  calls-cover :
      (n : ℕ) (xs : List EngineCall) (c : PoasConsensus)
      → covers n c.highest_justified ≡ true
      → covers n (calls xs c).highest_justified ≡ true
  calls-cover n [] c h = h
  calls-cover n (x ∷ xs) c h = calls-cover n xs (call x c) (call-covers n x c h)

  -- A block at or below a justified checkpoint is finalized, and stays finalized, at any head, after
  -- any calls of the engine's public methods, whether they succeed or fail, a block produced and the
  -- set of validators or the slashing manager edited from outside among them.
  pub justified_stays_finalized :
      (n head : ℕ) (xs : List EngineCall) (c : PoasConsensus)
      → covers n c.highest_justified ≡ true
      → is_finalized n head (calls xs c) ≡ true
  unfolding is_finalized
  justified_stays_finalized n head xs c h = ground (arith, calls-cover n xs c h)
