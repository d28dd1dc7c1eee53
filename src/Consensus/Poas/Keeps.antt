-- ===== src/Consensus/Poas/Keeps.antt =====
-- What the end of a block and a reorganisation keep in crates/consensus/src/poas.rs, from what each of
-- their steps keeps.
use kainotes.Prelude.{
  ℕ, ◌%◌, Bool, true, false, ◌&&◌, Option, some, List, [], ◌∷◌, ◌==◌, if◌then◌else◌, Bool-cases,
  inl, inr,
}
use kainotes.Prelude.Result.{Result, ok, err, panic}
use kainotes.Prelude.Result.Exec.{bind-keeps, ◌>>=◌, ◌>>◌, lift, gets, modify, reject_if}
use kainotes.Core.Types.{Address, Hash}
use kainotes.Core.Host.{Host}
use kainotes.Core.Block.{Block, block_hash}
use kainotes.Core.Fork.{ReorgPath}
use kainotes.Core.Error.{reorg_too_deep}
use kainotes.Consensus.Error.{ConsensusError, blockchain_error}
use kainotes.Consensus.Slashing.{SlashingCondition, double_signing, slash_validator}
use kainotes.Consensus.Poas.{
  PoasConsensus, slash_in, credit, finalize_block, process_epoch_transition, PoasExec,
}
use kainotes.Consensus.Poas.Reorg.{
  Persist, punish, punish_against, punish_all, resolve, is_behind, apply_reorg, ancestor_number,
}

module _ (I : PoasConsensus → Type 0) (host : Host) (now : ℕ)
    (keep_slash : (k : Address) (condition : SlashingCondition) (evidence : Option Hash)
        (c : PoasConsensus)
      → I c
      → I (slash_in k (slash_validator now condition evidence) c).1) where
  punish-keeps : (a r : Block) (c : PoasConsensus) → I c → I (punish host now a r c).1
  unfolding punish
  punish-keeps a r c i =
      let same =
        a.header.number == r.header.number
        && a.header.proposer == r.header.proposer
        && c.config.slash_for_wrong_fork in
      elim (Bool-cases same) [
        | inl both ↦
            rw both (keep_slash a.header.proposer double_signing (some (block_hash host a)) c i)
        | inr other ↦ rw other i
      ]

  punish_against-keeps :
      (a : Block) (rs : List Block) (c : PoasConsensus) → I c → I (punish_against host now a rs c).1
  unfolding punish_against
  punish_against-keeps a [] c i = i
  punish_against-keeps a (r ∷ rs) c i =
      bind-keeps I (punish host now a r) (λ (u : Unit). punish_against host now a rs) c
        (punish-keeps a r c i) (λ u d h. punish_against-keeps a rs d h)

  punish_all-keeps :
      (bs rs : List Block) (c : PoasConsensus) → I c → I (punish_all host now bs rs c).1
  unfolding punish_all
  punish_all-keeps [] rs c i = i
  punish_all-keeps (a ∷ bs) rs c i =
      bind-keeps I (punish_against host now a rs) (λ (u : Unit). punish_all host now bs rs) c
        (punish_against-keeps a rs c i) (λ u d h. punish_all-keeps bs rs d h)

  pub apply_reorg-keeps :
      (p : ReorgPath) (persist : Option Persist) (c : PoasConsensus)
      → ((n : ℕ) (d : PoasConsensus) → I d → I (resolve host n p persist d).1)
      → I c
      → I (apply_reorg host now p persist c).1
  unfolding apply_reorg
  apply_reorg-keeps p persist c keep_resolve i = split (ancestor_number p)
    where
      go_on : ℕ → PoasExec Unit
      go_on n = punish_all host now p.apply_blocks p.revert_blocks >> resolve host n p persist

      carried : (n : ℕ) → I (go_on n c).1
      carried n =
          bind-keeps I (punish_all host now p.apply_blocks p.revert_blocks)
            (λ (u : Unit). resolve host n p persist) c
            (punish_all-keeps p.apply_blocks p.revert_blocks c i) (λ u d h. keep_resolve n d h)

      guarded :
          (n : ℕ) (behind : Bool)
          → I ((reject_if behind (blockchain_error (reorg_too_deep p.depth)) >> go_on n) c).1
      guarded n true = i
      guarded n false = carried n

      split :
          (r : Result ConsensusError ℕ)
          → I
              ((lift r >>= λ n. gets (λ (c : PoasConsensus). c.highest_justified) >>= λ justified.
                  reject_if (is_behind n justified) (blockchain_error (reorg_too_deep p.depth))
                  >> go_on n)
                c).1
      split (ok n) = guarded n (is_behind n c.highest_justified)
      split (err e) = i
      split panic = i

pub finalize_block-keeps :
    (I : PoasConsensus → Type 0) (now : ℕ) (block : Block) (c : PoasConsensus)
    → ((k : Address) (max : ℕ) → I c → I (slash_in k (credit now max) c).1)
    → ((d : PoasConsensus) → I d → I (process_epoch_transition now d))
    → I c
    → I (finalize_block now block c).1
unfolding finalize_block
finalize_block-keeps I now block c keep_credit keep_epoch i =
    let max = c.config.max_downtime_blocks in
    bind-keeps I (slash_in block.header.proposer (credit now max))
      (λ (u : Unit). modify λ (d : PoasConsensus).
        if block.header.number % d.blocks_per_epoch == 0 then process_epoch_transition now d else d)
      c (keep_credit block.header.proposer max i)
      (λ u d h. elim (Bool-cases (block.header.number % d.blocks_per_epoch == 0)) [
        | inl epoch ↦ rw epoch (keep_epoch d h)
        | inr other ↦ rw other h
      ])
