-- ===== src/Storage/Cache/Refinement.antt =====
-- The steps of the cache of crates/storage/src/cache.rs against its specification.
use kainotes.Prelude.{
  ℕ, zero, suc, ◌≤◌, ◌<◌, ◌≡◌, refl, sym, ap, ◌∙◌, subst, true, false, not, ◌&&◌, none, some, [],
  ◌∷◌, arith, length, ◌==◌, leb, if◌then◌else◌, Bool-cases, Option-cases, inl, inr,
}
use kainotes.Dict.{Dict, lookup, insert, remove, contains, is_some, IsDistinct}
use kainotes.Dict.Laws.{
  lookup-insert, lookup-remove, remove_absent, insert-IsDistinct, remove-IsDistinct,
}
use kainotes.Dict.Sums.{length-insert_new, length-insert_old, length-remove}
use kainotes.Storage.Cache
use kainotes.Storage.Cache.{LruCache, without, last_of, but_last, get, put, evict}
use kainotes.Storage.Cache.Recency.{
  take, keys, remember, keys-remove, take_all, take-but_last, keys-but_last, length-but_last,
  lookup-but_last, last_known,
}

module _ {V : Type 0} where
  -- The cache holds the entries of the list, in the list's order.
  pub record Refines (c : LruCache V) (r : Dict V) : Type 0 where
    pub order : c.order ≡ keys r
    pub same : (k : ℕ) → lookup k c.map ≡ lookup k r
    pub distinct : IsDistinct c.map
    pub listed_once : IsDistinct r
    pub sizes : length c.map ≡ length r
    pub bound : length r ≤ c.capacity

  pub new-Refines : (capacity : ℕ) → Refines (Cache.new capacity) []
  unfolding Cache.new
  new-Refines capacity = record {
    order = refl;
    same = λ k. refl;
    distinct = tt;
    listed_once = tt;
    sizes = refl;
    bound = omega arith;
  }

  front-IsDistinct : (k : ℕ) (v : V) (r : Dict V) → IsDistinct r → IsDistinct ((k, v) ∷ remove k r)
  front-IsDistinct k v r d = (ground (arith, lookup-remove k k r), remove-IsDistinct k r d)

  lookup-front :
      (j k : ℕ) (v : V) (r : Dict V)
      → lookup j ((k, v) ∷ remove k r) ≡ (if k == j then some v else lookup j r)
  unfolding lookup
  lookup-front j k v r = ground (arith, lookup-remove j k r)

  -- An entry that is there is used, with its old value or a new one.
  used_again :
      (c : LruCache V) (r : Dict V) (k : ℕ) (u v : V) (map : Dict V)
      → Refines c r
      → lookup k r ≡ some u
      → IsDistinct map
      → length map ≡ length c.map
      → ((j : ℕ) → lookup j map ≡ (if k == j then some v else lookup j c.map))
      → Refines (record c { order = k ∷ without k c.order; map = map }) (remember c.capacity k v r)
  used_again c r k u v map f found d size look =
      let total : length ((k, v) ∷ remove k r) ≤ c.capacity =
        omega (arith, length-remove k u r f.listed_once found, f.bound) in
      subst (Refines _) (sym (take_all c.capacity ((k, v) ∷ remove k r) total)) (record {
        order = ap (λ ks. k ∷ ks) (ap (without k) f.order ∙ sym (keys-remove k r));
        same = λ j. look j ∙ ground (arith, f.same j, lookup-front j k v r);
        distinct = d;
        listed_once = front-IsDistinct k v r f.listed_once;
        sizes = omega (arith, size, f.sizes, length-remove k u r f.listed_once found);
        bound = total;
      })

  -- A new entry where there is room.
  used_first :
      (c : LruCache V) (r : Dict V) (k : ℕ) (v : V)
      → Refines c r
      → lookup k r ≡ none
      → length r < c.capacity
      → Refines (record c { order = k ∷ without k c.order; map = insert k v c.map }) ((k, v) ∷ r)
  used_first c r k v f absent room =
      let kept = remove_absent k r absent in
      let missing : lookup k c.map ≡ none = f.same k ∙ absent in
      subst
        (λ x.
          Refines (record c { order = k ∷ without k c.order; map = insert k v c.map }) ((k, v) ∷ x))
        kept
        (record {
          order = ap (λ ks. k ∷ ks) (ap (without k) f.order ∙ sym (keys-remove k r));
          same = λ j. ground (arith, lookup-insert j k v c.map, f.same j, lookup-front j k v r);
          distinct = insert-IsDistinct k v c.map f.distinct;
          listed_once = front-IsDistinct k v r f.listed_once;
          sizes = omega (arith, length-insert_new k v c.map missing, f.sizes, ap length kept);
          bound = omega (arith, room, ap length kept);
        })

  remember_free :
      (capacity k : ℕ) (v : V) (r : Dict V)
      → lookup k r ≡ none
      → length r < capacity
      → remember capacity k v r ≡ (k, v) ∷ r
  remember_free capacity k v r absent room =
      ap (λ x. take capacity ((k, v) ∷ x)) (remove_absent k r absent)
      ∙ take_all capacity ((k, v) ∷ r) (omega (arith, room))

  remember_full :
      (capacity k : ℕ) (v : V) (r : Dict V)
      → lookup k r ≡ none
      → 0 < capacity
      → length r ≡ capacity
      → remember capacity k v r ≡ (k, v) ∷ but_last r
  remember_full zero k v r absent positive full = absurd (omega (arith, positive))
  remember_full (suc n) k v r absent positive full =
      ap (λ x. (k, v) ∷ take n x) (remove_absent k r absent)
      ∙ ap (λ x. (k, v) ∷ x) (take-but_last n r full)

  missing-but_last : (k : ℕ) (r : Dict V) → lookup k r ≡ none → lookup k (but_last r) ≡ none
  unfolding lookup
  missing-but_last k [] h = refl
  missing-but_last k (e ∷ []) h = refl
  missing-but_last k ((j, w) ∷ f ∷ r) h = ground (arith, missing-but_last k (f ∷ r), h)

  but_last-IsDistinct : (r : Dict V) → IsDistinct r → IsDistinct (but_last r)
  but_last-IsDistinct [] d = tt
  but_last-IsDistinct (e ∷ []) d = tt
  but_last-IsDistinct ((j, w) ∷ f ∷ r) d =
      (missing-but_last j (f ∷ r) d.0, but_last-IsDistinct (f ∷ r) d.1)

  last_exists : (r : Dict V) → 0 < length r → (o : ℕ) × (last_of (keys r) ≡ some o)
  last_exists [] h = absurd (omega (arith, h))
  last_exists ((k, v) ∷ []) h = (k, refl)
  last_exists ((k, v) ∷ f ∷ r) h = last_exists (f ∷ r) (omega arith)

  last_value : (o : ℕ) (r : Dict V) → last_of (keys r) ≡ some o → (u : V) × (lookup o r ≡ some u)
  last_value o r h = elim (Option-cases (lookup o r)) [
    | inl absent ↦ absurd (last_known r o h absent)
    | inr found ↦ found
  ]

  evict-Refines :
      (c : LruCache V) (r : Dict V)
      → Refines c r
      → 0 < length r
      → Refines (evict c) (but_last r) × ((evict c).capacity ≡ c.capacity)
  unfolding evict
  evict-Refines c r f h =
      let (o, last) = last_exists r h in
      let (u, found) = last_value o r last in
      let first_out : last_of c.order ≡ some o = ap last_of f.order ∙ last in
      rw (first_out, evict)
        (
          record {
            order = ap but_last f.order ∙ sym (keys-but_last r);
            same = λ j. ground (
              arith,
              lookup-remove j o c.map,
              f.same j,
              lookup-but_last j o r f.listed_once last,
            );
            distinct = remove-IsDistinct o c.map f.distinct;
            listed_once = but_last-IsDistinct r f.listed_once;
            sizes = omega (
              arith,
              length-remove o u c.map f.distinct (f.same o ∙ found),
              length-but_last r,
              f.sizes,
            );
            bound = omega (arith, length-but_last r, f.bound);
          },
          refl,
        )

  -- A new entry where there is no room.
  used_full :
      (c : LruCache V) (r : Dict V) (k : ℕ) (v : V)
      → Refines c r
      → lookup k r ≡ none
      → 0 < c.capacity
      → c.capacity ≤ length r
      → let d = evict c in
        Refines
          (record d { order = k ∷ without k d.order; map = insert k v d.map })
          (remember c.capacity k v r)
  used_full c r k v f absent positive full =
      let (g, capacity) = evict-Refines c r f (omega (arith, positive, full)) in
      let d = evict c in
      let missing = missing-but_last k r absent in
      let room : length (but_last r) < d.capacity =
        omega (arith, length-but_last r, capacity, positive, f.bound) in
      subst (Refines (record d { order = k ∷ without k d.order; map = insert k v d.map }))
        (sym (remember_full c.capacity k v r absent positive (omega (arith, full, f.bound))))
        (used_first d (but_last r) k v g missing room)

  pub put-Refines :
      (k : ℕ) (v : V) (c : LruCache V) (r : Dict V)
      → 0 < c.capacity
      → Refines c r
      → Refines (put k v c) (remember c.capacity k v r)
  unfolding put contains
  put-Refines k v c r positive f = elim (Option-cases (lookup k r)) [
    | inr (u, found) ↦
        let there : lookup k c.map ≡ some u = f.same k ∙ found in
        let stays : (leb c.capacity (length c.map) && not (is_some (lookup k c.map))) ≡ false =
          ground (arith, there) in
        rw (put, stays)
          (used_again c r k u v (insert k v c.map) f found (insert-IsDistinct k v c.map f.distinct)
            (length-insert_old k u v c.map there) (λ j. lookup-insert j k v c.map))
    | inl absent ↦
        let missing : lookup k c.map ≡ none = f.same k ∙ absent in
        elim (Bool-cases (leb c.capacity (length c.map))) [
          | inl full ↦
              let goes : (leb c.capacity (length c.map) && not (is_some (lookup k c.map))) ≡ true =
                ground (arith, missing, full) in
              rw (put, goes) (used_full c r k v f absent positive (ground (arith, full, f.sizes)))
          | inr free ↦
              let stays : (leb c.capacity (length c.map) && not (is_some (lookup k c.map)))
                  ≡ false =
                ground (arith, free) in
              let room : length r < c.capacity = ground (arith, free, f.sizes) in
              rw (put, stays)
                (subst
                  (Refines (record c { order = k ∷ without k c.order; map = insert k v c.map }))
                  (sym (remember_free c.capacity k v r absent room))
                  (used_first c r k v f absent room))
        ]
  ]

  pub get-Refines :
      (k : ℕ) (v : V) (c : LruCache V) (r : Dict V)
      → Refines c r
      → lookup k r ≡ some v
      → Refines (get k c).1 (remember c.capacity k v r)
  unfolding get contains
  get-Refines k v c r f found =
      let there : lookup k c.map ≡ some v = f.same k ∙ found in
      rw (there, get)
        (used_again c r k v v c.map f found f.distinct refl λ j. ground (arith, there))
