-- ===== src/Storage/Cache/Tests.antt =====
-- Runs of the cache, and its theorem at a concrete run.
use kainotes.Prelude.{ℕ, ◌≡◌, ◌≤◌, refl, none, List, [], ◌∷◌, arith, length}
use kainotes.Dict.{lookup, insert, remove, contains}
use kainotes.Storage.Cache
use kainotes.Storage.Cache.{StateCache, get, put, evict, put_state}
use kainotes.Storage.Cache.Runs.{CacheCall, look, store, calls, recall, cache_recalls}

-- The third store puts out the second entry, since the first was looked up.
abbrev some_calls : List (CacheCall ℕ)
some_calls = store 1 10 ∷ store 2 20 ∷ look 1 ∷ store 3 30 ∷ []

cache_recalls_example :
    ((get 1 (calls some_calls (Cache.new 2))).0 ≡ lookup 1 (recall 2 some_calls []))
    × (length (calls some_calls (Cache.new 2)).map ≤ 2)
cache_recalls_example = cache_recalls 2 1 some_calls (omega arith)

second_is_gone : (get 2 (calls some_calls (Cache.new 2))).0 ≡ none
unfolding get put evict contains lookup insert remove Cache.new
second_is_gone = refl

-- Storing a state again in a full cache puts out another one.
abbrev full_states : StateCache ℕ
full_states = record { cache = (1, 10) ∷ (2, 20) ∷ []; max_entries = 2 }

storing_again_evicts : lookup 1 (put_state 2 21 full_states).cache ≡ none
unfolding put_state lookup insert remove
storing_again_evicts = refl
