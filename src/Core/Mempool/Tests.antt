-- ===== src/Core/Mempool/Tests.antt =====
-- Runs of the pool, and the theorems of its modules at concrete pools.
use kainotes.Prelude.{ℕ, ◌-◌, ◌≡◌, ◌≤◌, refl, [], ◌∷◌, arith, length, u64_mod, All}
use kainotes.Dict.{lookup, insert, contains}
use kainotes.Dict.Ordered.{insert_ordered}
use kainotes.Core.Transaction.{Transaction, TransactionType, validate_basic, validate_type}
use kainotes.Core.Samples.{sample_host, signed}
use kainotes.Core.Block.{transaction_hash}
use kainotes.Core.Mempool
use kainotes.Core.Mempool.{
  TransactionPool, default_config, add, remove_tx, get_pending, take_fitting, highest_first,
  put_pending, put_queued, make_room, place, track, prune, remove_included,
}
use kainotes.Core.Mempool.Invariant.{IsSound}
use kainotes.Core.Mempool.Runs.{Reached, fresh, after_add}
use kainotes.Core.Mempool.Promotion.{Reached-IsSound}
use kainotes.Core.Mempool.Selection.{
  IsModest, IsDescending, gas_of, get_pending_fits, get_pending_descends,
}

abbrev priced : ℕ → ℕ → ℕ → Transaction
priced from nonce price = record (signed from nonce (TransactionType.stake 10)) {
  gas_price = price;
}

abbrev with_one : TransactionPool
with_one = (add sample_host 100 (priced 4 0 5) 0 (Mempool.new default_config)).1

abbrev with_two : TransactionPool
with_two = (add sample_host 101 (priced 6 2 9) 2 with_one).1

-- One more waits for an earlier nonce.
abbrev with_three : TransactionPool
with_three = (add sample_host 102 (priced 4 3 7) 1 with_two).1

three-Reached : Reached sample_host default_config with_three
three-Reached =
    after_add 102 (priced 4 3 7) 1
      (after_add 101 (priced 6 2 9) 2 (after_add 100 (priced 4 0 5) 0 fresh))

Reached-IsSound_example : IsSound sample_host with_three
Reached-IsSound_example =
    Reached-IsSound sample_host default_config with_three (omega arith) three-Reached

get_pending_descends_example : IsDescending (get_pending 100000 10 with_three)
get_pending_descends_example =
    get_pending_descends sample_host default_config 100000 10 with_three three-Reached

best_pays_first : get_pending 100000 10 with_three ≡ priced 6 2 9 ∷ priced 4 0 5 ∷ []
unfolding get_pending take_fitting add Mempool.new validate_basic validate_type contains lookup
    insert insert_ordered put_pending put_queued make_room place track transaction_hash
best_pays_first = refl

limits_are_small : All (IsModest 100000) (highest_first with_three.pending)
unfolding get_pending take_fitting add Mempool.new validate_basic validate_type contains lookup
    insert insert_ordered put_pending put_queued make_room place track transaction_hash
limits_are_small = (omega arith, (omega arith, tt))

get_pending_fits_example :
    (gas_of (get_pending 100000 1 with_three) ≤ 100000)
    × (length (get_pending 100000 1 with_three) ≤ 1)
get_pending_fits_example = get_pending_fits 100000 1 with_three limits_are_small

-- Two gas limits that add up to more than a word pass a limit of 10.
abbrev heavy : TransactionPool
heavy = record (Mempool.new default_config) {
  pending =
      (
        5,
        (
          1,
          record {
            transaction = record (priced 4 0 5) { gas_limit = 10 };
            added_at = 0;
            status = Mempool.pending;
          },
        )
            ∷ (
              2,
              record {
                transaction = record (priced 6 0 5) { gas_limit = u64_mod - 3 };
                added_at = 0;
                status = Mempool.pending;
              },
            )
            ∷ [],
      )
      ∷ [];
}

wrapped_gas_is_taken : length (get_pending 10 5 heavy) ≡ 2
unfolding get_pending take_fitting
wrapped_gas_is_taken = refl
