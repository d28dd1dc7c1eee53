-- ===== src/Core/Fork/Choice.antt =====
-- The choice between two chains, and the history of forks.
use kainotes.Prelude.{
  ◌+◌, ◌≤◌, ◌<◌, ◌≡◌, refl, ◌↔◌, true, List, [], ◌∷◌, ◌++◌, arith, length, length-append, min,
}
use kainotes.Prelude.Result.{ok}
use kainotes.Core.Block.{Block}
use kainotes.Core.Fork.{ForkInfo, ForkResolver, choose_chain, record_fork, without_first}

-- Under every rule the fork is chosen exactly when it is strictly longer than the main chain.
choose_chain_lem :
    (r : ForkResolver) (main_chain fork_chain : List Block)
    → (choose_chain r main_chain fork_chain ≡ ok true) ↔ (length main_chain < length fork_chain)
unfolding choose_chain
choose_chain_lem r main_chain [] = ground arith
choose_chain_lem r main_chain (b ∷ bs) = ground arith

length-without_first :
    (f : ForkInfo) (fs : List ForkInfo) → length (without_first (fs ++ (f ∷ []))) ≡ length fs
length-without_first f [] = refl
length-without_first f (g ∷ fs) = omega (arith, length-append fs (f ∷ []))

-- Recording a fork makes a history of at most 100 forks one longer, up to 100 forks.
length-record_fork :
    (fork_info : ForkInfo) (r : ForkResolver)
    → length r.fork_history ≤ 100
    → length (record_fork fork_info r).fork_history ≡ min (length r.fork_history + 1) 100
unfolding record_fork
length-record_fork fork_info r h = ground (
  arith,
  length-append r.fork_history (fork_info ∷ []),
  length-without_first fork_info r.fork_history,
  h,
)
