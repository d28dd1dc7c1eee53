-- ===== src/Consensus/Poas/Reorg.antt =====
-- `apply_reorg` of crates/consensus/src/poas.rs: the guard of the justified checkpoint, the slashing of
-- those who signed on both sides, the history and the callback.
use kainotes.Prelude.{
  ℕ, ◌+◌, ◌-◌, ◌%◌, Bool, false, ◌&&◌, Option, none, some, List, [], ◌∷◌, ◌++◌, length, ltb, ◌==◌,
  if◌then◌else◌, min, u64_mod,
}
use kainotes.Prelude.Result.{Result, ok, err}
use kainotes.Prelude.Result.Exec.{pure, lift, gets, modify, reject_if, ◌>>=◌, ◌>>◌}
use kainotes.Core.Types.{Bytes, Hash}
use kainotes.Core.Error.{reorg_too_deep}
use kainotes.Core.Host.{Host}
use kainotes.Core.Block.{Block, block_hash}
use kainotes.Core.Fork.{ForkInfo, ReorgPath, record_fork, choose_chain}
use kainotes.Consensus.Error.{ConsensusError, validation_error, blockchain_error}
use kainotes.Consensus.Validator.{get_validator}
use kainotes.Consensus.Slashing.{double_signing, slash_validator}
use kainotes.Consensus.Poas.{PoasConsensus, PoasExec, as_blockchain, slash_in}

-- The smallest number of some blocks.
abbrev pub min_number : Block → List Block → ℕ
min_number b [] = b.header.number
min_number b (x ∷ xs) = min b.header.number (min_number x xs)

-- The number of the common ancestor, or the error for an empty path.
unfoldable pub ancestor_number : ReorgPath → Result ConsensusError ℕ
ancestor_number p = elim p.revert_blocks [
  | b ∷ bs ↦ ok (min_number b bs - 1)
  | [] ↦ elim p.apply_blocks [ b ∷ bs ↦ ok (b.header.number - 1) | [] ↦ err validation_error ]
]

abbrev pub is_behind : ℕ → Option ℕ → Bool
is_behind n none = false
is_behind n (some j) = ltb n j

-- The test of one applied block against one reverted block.
unfoldable pub punish : Host → ℕ → Block → Block → PoasExec Unit
unfolding get_validator
punish host now a r c =
    if a.header.number == r.header.number
      && a.header.proposer == r.header.proposer
      && c.config.slash_for_wrong_fork
    then slash_in a.header.proposer (slash_validator now double_signing (some (block_hash host a)))
        c
    else (ok tt, c)

unfoldable pub punish_against : Host → ℕ → Block → List Block → PoasExec Unit
unfolding punish
punish_against host now a [] = pure tt
punish_against host now a (r ∷ rs) = punish host now a r >> punish_against host now a rs

unfoldable pub punish_all : Host → ℕ → List Block → List Block → PoasExec Unit
unfolding punish_against
punish_all host now [] reverted = pure tt
punish_all host now (a ∷ rest) reverted =
    punish_against host now a reverted >> punish_all host now rest reverted

abbrev first_hash : Host → Hash → List Block → Hash
first_hash host d [] = d
first_hash host d (b ∷ bs) = block_hash host b

abbrev last_hash : Host → Hash → List Block → Hash
last_hash host d [] = d
last_hash host d (b ∷ bs) = last_hash host (block_hash host b) bs

abbrev pub fork_of : Host → ℕ → ReorgPath → ForkInfo
fork_of host n p = record {
  fork_point = n;
  fork_hash = p.common_ancestor;
  main_tip = first_hash host p.common_ancestor p.revert_blocks;
  fork_tip = last_hash host p.common_ancestor p.apply_blocks;
  main_length = length p.revert_blocks;
  fork_length = length p.apply_blocks;
}

-- the bytes of "resolved"
abbrev resolved_text : Bytes
resolved_text = b'r' ∷ b'e' ∷ b's' ∷ b'o' ∷ b'l' ∷ b'v' ∷ b'e' ∷ b'd' ∷ []

-- The history and the metrics of a reorganisation.
unfoldable pub note_reorg : ForkInfo → ℕ → PoasConsensus → PoasConsensus
unfolding record_fork
note_reorg f depth c = record c {
  fork_resolver = record_fork f c.fork_resolver;
  fork_events = c.fork_events ++ ((f.fork_point, resolved_text) ∷ []);
  fork_frequency = (c.fork_frequency + 1) % u64_mod;
  total_reorg_depth = (c.total_reorg_depth + depth) % u64_mod;
  max_reorg_depth_observed =
      if ltb c.max_reorg_depth_observed depth then depth else c.max_reorg_depth_observed;
}

-- The callback is given the fork, the depth and whether the fork was chosen.
abbrev pub Persist : Type 0
Persist = ForkInfo → ℕ → Bool → Result ConsensusError Unit

abbrev persisted : Option Persist → ForkInfo → ℕ → Bool → Result ConsensusError Unit
persisted none f depth choice = ok tt
persisted (some callback) f depth choice = callback f depth choice

-- The choice between the two sides, for the callback.
unfoldable pub resolve : Host → ℕ → ReorgPath → Option Persist → PoasExec Unit
unfolding note_reorg
resolve host number p persist = do
  modify (note_reorg (fork_of host number p) p.depth)
  resolver ← gets λ (c : PoasConsensus). c.fork_resolver
  choice ← lift (as_blockchain (choose_chain resolver p.revert_blocks p.apply_blocks))
  lift (persisted persist (fork_of host number p) p.depth choice)

unfoldable pub apply_reorg : Host → ℕ → ReorgPath → Option Persist → PoasExec Unit
unfolding ancestor_number punish_all resolve
apply_reorg host now p persist = do
  number ← lift (ancestor_number p)
  justified ← gets λ (c : PoasConsensus). c.highest_justified
  reject_if (is_behind number justified) (blockchain_error (reorg_too_deep p.depth))
  punish_all host now p.apply_blocks p.revert_blocks
  resolve host number p persist
