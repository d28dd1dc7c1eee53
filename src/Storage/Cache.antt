-- ===== src/Storage/Cache.antt =====
-- crates/storage/src/cache.rs: the cache that forgets what was used least recently, on which the
-- caches of blocks and transactions are built, and the cache of states. The locks around them are
-- left out: every method holds its lock from beginning to end.
pub mod Recency
pub mod Refinement
pub mod Runs
mod Tests
use kainotes.Prelude.{
  ℕ, Bool, true, false, not, ◌&&◌, Option, none, some, List, [], ◌∷◌, length, leb, ltb, ◌==◌,
  if◌then◌else◌,
}
use kainotes.Dict.{Dict, lookup, insert, remove, contains}

-- `retain` of the keys other than one
abbrev pub without : ℕ → List ℕ → List ℕ
without k [] = []
without k (j ∷ js) = let rest = without k js in if j == k then rest else j ∷ rest

-- `pop_back`
abbrev pub last_of {ℓ} : {A : Type ℓ} → List A → Option A
last_of [] = none
last_of (x ∷ []) = some x
last_of (x ∷ y ∷ xs) = last_of (y ∷ xs)

abbrev pub but_last {ℓ} : {A : Type ℓ} → List A → List A
but_last [] = []
but_last (x ∷ []) = []
but_last (x ∷ y ∷ xs) = x ∷ but_last (y ∷ xs)

-- the smallest key
abbrev pub min_key {ℓ} : {V : Type ℓ} → Dict V → Option ℕ
min_key [] = none
min_key ((k, v) ∷ d) = elim (min_key d) [
  | none ↦ some k
  | some m ↦ if ltb m k then some m else some k
]

-- The order has the key used last first.
pub record LruCache (V : Type 0) : Type 0 where
  pub map : Dict V
  pub order : List ℕ
  pub capacity : ℕ

pub record StateCache (V : Type 0) : Type 0 where
  pub cache : Dict V
  pub max_entries : ℕ

module _ {V : Type 0} where
  -- `LruCache::new`
  unfoldable pub new : ℕ → LruCache V
  new capacity = record { map = []; order = []; capacity = capacity }

  -- `LruCache::get`
  unfoldable pub get : ℕ → LruCache V → Option V × LruCache V
  unfolding contains
  get key c =
      if contains key c.map
      then (lookup key c.map, record c { order = key ∷ without key c.order })
      else (none, c)

  -- The key used least recently, out of the order and the map.
  unfoldable pub evict : LruCache V → LruCache V
  evict c = elim (last_of c.order) [
    | none ↦ c
    | some old ↦ record c { map = remove old c.map; order = but_last c.order }
  ]

  -- `LruCache::insert`
  unfoldable pub put : ℕ → V → LruCache V → LruCache V
  unfolding contains evict
  put key value c =
      let full = leb c.capacity (length c.map) && not (contains key c.map) in
      let c1 = if full then evict c else c in
      record c1 { order = key ∷ without key c1.order; map = insert key value c1.map }

  -- `LruCache::clear`
  unfoldable pub clear : LruCache V → LruCache V
  clear c = record c { map = []; order = [] }

  -- `StateCache::insert`
  unfoldable pub put_state : ℕ → V → StateCache V → StateCache V
  put_state block_number state c =
      let room =
        (if leb c.max_entries (length c.cache)
          then elim (min_key c.cache) [ none ↦ c.cache | some k ↦ remove k c.cache ]
          else c.cache) in
      record c { cache = insert block_number state room }

  -- `StateCache::get`
  unfoldable pub get_state : ℕ → StateCache V → Option V
  get_state block_number c = lookup block_number c.cache
