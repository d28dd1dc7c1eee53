-- ===== src/Core/Fork.antt =====
-- crates/blockchain-core/src/fork.rs: the choice between chains, the search of a common ancestor and
-- the path of a reorganisation. The loops that the source leaves without a bound take fuel, and the
-- answer `none` says that it ran out.
pub mod Choice
pub mod Path
pub mod Fuel
pub mod Lockstep
mod Tests
use kainotes.Prelude.{
  ℕ, zero, suc, ◌+◌, Bool, true, false, ◌&&◌, ◌||◌, Option, none, some, List, [], ◌∷◌, ◌++◌, length,
  ltb, ◌==◌, if◌then◌else◌,
}
use kainotes.Prelude.Result.{Result, ok, err, panic}
use kainotes.Dict.{Dict, lookup}
use kainotes.Core.Types.{Hash}
use kainotes.Core.Error.{BlockchainError, block_not_found, no_common_ancestor, reorg_too_deep}
use kainotes.Core.Transaction.{is_empty}
use kainotes.Core.Host.{Host}
use kainotes.Core.Block.{Block, block_number, block_hash, is_genesis}

pub data ForkChoice : Type 0 where
  longest_chain heaviest_chain latest_justified : ForkChoice

pub record ForkInfo : Type 0 where
  pub fork_point : ℕ
  pub fork_hash : Hash
  pub main_tip : Hash
  pub fork_tip : Hash
  pub main_length : ℕ
  pub fork_length : ℕ

pub record ForkResolver : Type 0 where
  pub choice : ForkChoice
  pub max_reorg_depth : ℕ
  pub fork_history : List ForkInfo

pub record ReorgPath : Type 0 where
  pub common_ancestor : Hash
  pub revert_blocks : List Block
  pub apply_blocks : List Block
  pub depth : ℕ

-- `ForkResolver::new`
unfoldable pub new : ForkChoice → ℕ → ForkResolver
new choice max_reorg_depth = record {
  choice = choice;
  max_reorg_depth = max_reorg_depth;
  fork_history = [];
}

unfoldable pub detect_fork : Host → Block → Block → Option ForkInfo
detect_fork host current_head new_block =
    if new_block.header.parent_hash == block_hash host current_head
    then none
    else some (record {
      fork_point = block_number current_head;
      fork_hash = block_hash host current_head;
      main_tip = block_hash host current_head;
      fork_tip = block_hash host new_block;
      main_length = 0;
      fork_length = 1;
    })

unfoldable pub choose_chain : ForkResolver → List Block → List Block → Result BlockchainError Bool
choose_chain r main_chain fork_chain = if is_empty fork_chain then ok false else elim r.choice [
  | longest_chain ↦ ok (ltb (length main_chain) (length fork_chain))
  | heaviest_chain ↦ ok (ltb (length main_chain) (length fork_chain))
  | latest_justified ↦ ok (ltb (length main_chain) (length fork_chain))
]

-- `contains` and `insert` of a set of hashes
abbrev pub is_visited : Hash → List Hash → Bool
is_visited h [] = false
is_visited h (k ∷ ks) = k == h || is_visited h ks

abbrev pub visit : Hash → List Hash → List Hash
visit h ks = if is_visited h ks then ks else h ∷ ks

-- the bound of the search
abbrev pub search_limit : ℕ
search_limit = 10000

-- the loop of `find_common_ancestor`
unfoldable pub search :
    ℕ → Dict Block → Dict Block → Hash → Hash → List Hash → List Hash → Option (Option Hash)
search zero chain_a chain_b a b visited_a visited_b = none
search (suc fuel) chain_a chain_b a b visited_a visited_b =
    if is_visited a visited_b
    then some (some a)
    else if is_visited b visited_a
    then some (some b)
    else elim (lookup a chain_a) [
      | none ↦ some none
      | some block_a ↦ elim (lookup b chain_b) [
        | none ↦ some none
        | some block_b ↦ elim (is_genesis block_a && is_genesis block_b) [
          | true ↦ some (some a)
          | false ↦
              elim (ltb search_limit (length (visit a visited_a))
                || ltb search_limit (length (visit b visited_b))) [
                  | true ↦ some none
                  | false ↦
                      search fuel chain_a chain_b block_a.header.parent_hash
                        block_b.header.parent_hash (visit a visited_a) (visit b visited_b)
                ]
        ]
      ]
    ]

unfoldable pub find_common_ancestor :
    ℕ → Dict Block → Dict Block → Hash → Hash → Option (Option Hash)
unfolding search
find_common_ancestor fuel chain_a chain_b head_a head_b =
    search fuel chain_a chain_b head_a head_b [] []

-- One more block in front of what the rest of a walk finds.
abbrev pub push_block :
    Block
    → Option (Result BlockchainError (List Block))
    → Option (Result BlockchainError (List Block))
push_block b none = none
push_block b (some (ok bs)) = some (ok (b ∷ bs))
push_block b (some (err e)) = some (err e)
push_block b (some panic) = some panic

-- the loop for the blocks to revert, with the number of those found so far
unfoldable pub walk_back :
    ℕ → ℕ → Dict Block → Hash → Hash → ℕ → Option (Result BlockchainError (List Block))
walk_back zero max blocks ancestor current found = none
walk_back (suc fuel) max blocks ancestor current found =
    if current == ancestor then some (ok []) else elim (lookup current blocks) [
      | none ↦ some (err (block_not_found current))
      | some b ↦ elim (ltb max (found + 1)) [
        | true ↦ some (err (reorg_too_deep (found + 1)))
        | false ↦ push_block b (walk_back fuel max blocks ancestor b.header.parent_hash (found + 1))
      ]
    ]

-- the loop for the blocks to apply, from the new head down
unfoldable pub walk_down :
    ℕ → Dict Block → Hash → Hash → Option (Result BlockchainError (List Block))
walk_down zero blocks ancestor current = none
walk_down (suc fuel) blocks ancestor current =
    if current == ancestor then some (ok []) else elim (lookup current blocks) [
      | none ↦ some (err (block_not_found current))
      | some b ↦ push_block b (walk_down fuel blocks ancestor b.header.parent_hash)
    ]

abbrev pub reverse : List Block → List Block
reverse [] = []
reverse (b ∷ bs) = reverse bs ++ (b ∷ [])

-- the end of `calculate_reorg_path`, from the blocks to revert and those to apply
abbrev pub path_of :
    Hash
    → Option (Result BlockchainError (List Block))
    → Option (Result BlockchainError (List Block))
    → Option (Result BlockchainError ReorgPath)
path_of ancestor none downs = none
path_of ancestor (some (err e)) downs = some (err e)
path_of ancestor (some panic) downs = some panic
path_of ancestor (some (ok revert)) none = none
path_of ancestor (some (ok revert)) (some (err e)) = some (err e)
path_of ancestor (some (ok revert)) (some panic) = some panic
path_of ancestor (some (ok revert)) (some (ok down)) = some (
    ok (record {
      common_ancestor = ancestor;
      revert_blocks = revert;
      apply_blocks = reverse down;
      depth = length revert;
    }))

unfoldable pub calculate_reorg_path :
    ℕ → Dict Block → Hash → Hash → ForkResolver → Option (Result BlockchainError ReorgPath)
unfolding find_common_ancestor walk_back walk_down
calculate_reorg_path fuel blocks old_head new_head r =
    elim (find_common_ancestor fuel blocks blocks old_head new_head) [
      | none ↦ none
      | some none ↦ some (err no_common_ancestor)
      | some (some ancestor) ↦
          path_of ancestor (walk_back fuel r.max_reorg_depth blocks ancestor old_head 0)
            (walk_down fuel blocks ancestor new_head)
    ]

-- `remove(0)`
abbrev pub without_first : List ForkInfo → List ForkInfo
without_first [] = []
without_first (f ∷ fs) = fs

unfoldable pub record_fork : ForkInfo → ForkResolver → ForkResolver
record_fork fork_info r =
    let history = r.fork_history ++ (fork_info ∷ []) in
    record r { fork_history = if ltb 100 (length history) then without_first history else history }

unfoldable pub set_fork_choice : ForkChoice → ForkResolver → ForkResolver
set_fork_choice choice r = record r { choice = choice }
