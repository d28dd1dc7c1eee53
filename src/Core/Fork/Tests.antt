-- ===== src/Core/Fork/Tests.antt =====
-- Runs of the fork resolver, and its theorems at concrete chains.
use kainotes.Prelude.{◌≡◌, ◌<◌, refl, some, [], ◌∷◌, arith, true}
use kainotes.Prelude.Result.{ok}
use kainotes.Dict.{Dict, lookup, insert}
use kainotes.Dict.Sorted.{sort_by_key}
use kainotes.Core.World
use kainotes.Core.Block.{
  Block, header_hash, is_genesis, validate, validate_header, validate_all, validate_root, total_gas,
}
use kainotes.Core.Chain.{add_block, get_block, head_block}
use kainotes.Core.Chain.Samples.{root_block, next_block, next_chain}
use kainotes.Core.Fork.{
  ForkResolver, ForkInfo, ReorgPath, longest_chain, search, find_common_ancestor, walk_back,
  walk_down, calculate_reorg_path,
}
use kainotes.Core.Fork.Path.{IsReorg, reorg_connects}
use kainotes.Core.Fork.Fuel.{HasEnded, IsAcyclic, level, reorg_ends}

abbrev resolver : ForkResolver
resolver = record { choice = longest_chain; max_reorg_depth = 6; fork_history = [] }

abbrev seen : ForkInfo
seen = record {
  fork_point = 0;
  fork_hash = 9;
  main_tip = 9;
  fork_tip = 25;
  main_length = 0;
  fork_length = 1;
}

abbrev two_blocks : Dict Block
two_blocks = (9, root_block) ∷ (25, next_block) ∷ []

-- From the head of the longer chain back to its genesis.
abbrev back_to_genesis : ReorgPath
back_to_genesis = record {
  common_ancestor = 9;
  revert_blocks = next_block ∷ [];
  apply_blocks = [];
  depth = 1;
}

genesis_is_reached : calculate_reorg_path 20000 two_blocks 25 9 resolver ≡ some (ok back_to_genesis)
unfolding calculate_reorg_path find_common_ancestor search walk_back walk_down lookup is_genesis
genesis_is_reached = refl

reorg_connects_example : IsReorg two_blocks 25 9 6 back_to_genesis
reorg_connects_example =
    reorg_connects 20000 two_blocks 25 9 resolver back_to_genesis genesis_is_reached

two_are-IsAcyclic : IsAcyclic two_blocks
unfolding lookup
two_are-IsAcyclic h b found = ground (arith, found)

level_is_small : level two_blocks 9 < 20000
unfolding lookup
level_is_small = omega arith

reorg_ends_example : HasEnded (calculate_reorg_path 20000 two_blocks 25 9 resolver)
reorg_ends_example =
    reorg_ends 20000 two_blocks 25 9 resolver two_are-IsAcyclic (omega arith) (omega arith)
      level_is_small

genesis_is_known : lookup next_chain.genesis next_chain.blocks ≡ some root_block
unfolding lookup insert header_hash add_block get_block head_block validate validate_header
    validate_all validate_root total_gas World.state_root sort_by_key World.combined
genesis_is_known = refl

root_is_genesis : is_genesis root_block ≡ true
unfolding is_genesis
root_is_genesis = refl
