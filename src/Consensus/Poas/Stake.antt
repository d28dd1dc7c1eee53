-- ===== src/Consensus/Poas/Stake.antt =====
-- Where stake goes at the end of a block and in a reorganisation, in crates/consensus/src/poas.rs.
use kainotes.Prelude.{◌+◌, ◌≡◌}
use kainotes.Core.Types.{Amount}
use kainotes.Core.Host.{Host}
use kainotes.Core.Block.{Block}
use kainotes.Consensus.Validator.{ValidatorInfo, total_stake}
use kainotes.Consensus.Slashing.{SlashingManager, SlashExec}
use kainotes.Consensus.Poas.{PoasConsensus}

-- The stake that the validators have and the stake that was slashed.
abbrev pub staked : PoasConsensus → Amount
staked c = total_stake c.validator_set + c.slashing.total_slashed

-- A call of the slashing manager that takes from the validator what it adds to the total.
abbrev IsFair : {A : Type 0} → SlashExec A → Type 0
IsFair m =
    (s : SlashingManager) (v : ValidatorInfo)
    → let (t, w) = (m (s, v)).1 in w.stake + t.total_slashed ≡ v.stake + s.total_slashed
