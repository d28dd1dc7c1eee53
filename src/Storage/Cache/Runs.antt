-- ===== src/Storage/Cache/Runs.antt =====
-- Runs of the cache of crates/storage/src/cache.rs against its specification.
use kainotes.Prelude.{
  ℕ, ◌≤◌, ◌<◌, ◌≡◌, refl, sym, ap, ◌∙◌, subst, Option, none, some, List, [], ◌∷◌, arith, length,
  Option-cases, inl, inr,
}
use kainotes.Dict.{Dict, lookup, contains}
use kainotes.Storage.Cache
use kainotes.Storage.Cache.{LruCache, get, put, clear, evict}
use kainotes.Storage.Cache.Recency.{remember}
use kainotes.Storage.Cache.Refinement.{Refines, new-Refines, get-Refines, put-Refines}

-- One call of the cache.
pub data CacheCall (V : Type 0) : Type 0 where
  look : ℕ → CacheCall V
  store : ℕ → V → CacheCall V
  wipe : CacheCall V

module _ {V : Type 0} where
  abbrev pub call : CacheCall V → LruCache V → LruCache V
  call (look k) c = (get k c).1
  call (store k v) c = put k v c
  call wipe c = clear c

  abbrev pub calls : List (CacheCall V) → LruCache V → LruCache V
  calls [] c = c
  calls (x ∷ xs) c = calls xs (call x c)

  -- What a look does to the list of the entries used last.
  abbrev pub seen : ℕ → ℕ → Option V → Dict V → Dict V
  seen capacity k none r = r
  seen capacity k (some v) r = remember capacity k v r

  -- The list of the entries used last, after some calls.
  abbrev pub recall : ℕ → List (CacheCall V) → Dict V → Dict V
  recall capacity [] r = r
  recall capacity (look k ∷ xs) r = recall capacity xs (seen capacity k (lookup k r) r)
  recall capacity (store k v ∷ xs) r = recall capacity xs (remember capacity k v r)
  recall capacity (wipe ∷ xs) r = recall capacity xs []

  -- A call keeps the capacity.
  put-capacity : (k : ℕ) (v : V) (c : LruCache V) → (put k v c).capacity ≡ c.capacity
  unfolding put evict contains
  put-capacity k v c = ground arith

  get-capacity : (k : ℕ) (c : LruCache V) → (get k c).1.capacity ≡ c.capacity
  unfolding get contains
  get-capacity k c = ground arith

  get-absent : (k : ℕ) (c : LruCache V) → lookup k c.map ≡ none → get k c ≡ (none, c)
  unfolding get contains
  get-absent k c h = ground (arith, h)

  get-answer : (k : ℕ) (c : LruCache V) → (get k c).0 ≡ lookup k c.map
  unfolding get contains
  get-answer k c = ground arith

  look-Refines :
      (k : ℕ) (c : LruCache V) (r : Dict V)
      → Refines c r
      → Refines (get k c).1 (seen c.capacity k (lookup k r) r)
  look-Refines k c r f = elim (Option-cases (lookup k r)) [
    | inl absent ↦
        rw absent
          (subst (λ x. Refines x r) (sym (ap (λ x. x.1) (get-absent k c (f.same k ∙ absent)))) f)
    | inr (v, found) ↦ rw found (get-Refines k v c r f found)
  ]

  calls-Refine :
      (xs : List (CacheCall V)) (c : LruCache V) (r : Dict V) (capacity : ℕ)
      → c.capacity ≡ capacity
      → 0 < capacity
      → Refines c r
      → Refines (calls xs c) (recall capacity xs r)
  unfolding clear
  calls-Refine [] c r capacity e h f = f
  calls-Refine (look k ∷ xs) c r capacity e h f =
      calls-Refine xs (get k c).1 (seen capacity k (lookup k r) r) capacity (get-capacity k c ∙ e) h
        (subst (λ n. Refines (get k c).1 (seen n k (lookup k r) r)) e (look-Refines k c r f))
  calls-Refine (store k v ∷ xs) c r capacity e h f =
      calls-Refine xs (put k v c) (remember capacity k v r) capacity (put-capacity k v c ∙ e) h (
        subst (λ n. Refines (put k v c) (remember n k v r)) e
          (put-Refines k v c r (omega (arith, e, h)) f))
  calls-Refine (wipe ∷ xs) c r capacity e h f = calls-Refine xs (clear c) [] capacity e h (record {
    order = refl;
    same = λ k. refl;
    distinct = tt;
    listed_once = tt;
    sizes = refl;
    bound = omega arith;
  })

  calls-capacity : (xs : List (CacheCall V)) (c : LruCache V) → (calls xs c).capacity ≡ c.capacity
  unfolding clear
  calls-capacity [] c = refl
  calls-capacity (look k ∷ xs) c = calls-capacity xs (get k c).1 ∙ get-capacity k c
  calls-capacity (store k v ∷ xs) c = calls-capacity xs (put k v c) ∙ put-capacity k v c
  calls-capacity (wipe ∷ xs) c = calls-capacity xs (clear c)

  -- After any calls of a new cache with a capacity above zero, a look answers with what the list of
  -- the entries used last holds, where each store and each look that found something puts its entry
  -- first and what is past the capacity goes; and the cache holds no more than its capacity.
  pub cache_recalls :
      (capacity k : ℕ) (xs : List (CacheCall V))
      → 0 < capacity
      → ((get k (calls xs (Cache.new capacity))).0 ≡ lookup k (recall capacity xs []))
        × (length (calls xs (Cache.new capacity)).map ≤ capacity)
  unfolding Cache.new
  cache_recalls capacity k xs h =
      let c = calls xs (Cache.new capacity) in
      let f = calls-Refine xs (Cache.new capacity) [] capacity refl h (new-Refines capacity) in
      (
        get-answer k c ∙ f.same k,
        omega (arith, f.sizes, f.bound, calls-capacity xs (Cache.new capacity)),
      )
