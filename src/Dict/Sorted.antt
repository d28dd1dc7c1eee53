-- ===== src/Dict/Sorted.antt =====
-- `sort_by_key` of Rust's standard library on the entries of a map, and its result: the one
-- ascending list with the same lookups.
use kainotes.Prelude.{
  ℕ, ◌<◌, ◌≤◌, ◌≡◌, refl, none, some, [], ◌∷◌, arith, All, ◌==◌, leb, if◌then◌else◌, sym, ◌∙◌,
}
use kainotes.Dict.{Dict, lookup, IsDistinct}

module _ {V : Type 0} where
  -- One step of an insertion sort, which is stable as `sort_by_key` is.
  pub insert_sorted : ℕ × V → Dict V → Dict V
  insert_sorted e [] = e ∷ []
  insert_sorted e (f ∷ l) =
      let rest = insert_sorted e l in if leb e.0 f.0 then e ∷ f ∷ l else f ∷ rest

  unfoldable pub sort_by_key : Dict V → Dict V
  unfolding insert_sorted
  sort_by_key [] = []
  sort_by_key (e ∷ l) = insert_sorted e (sort_by_key l)

  -- The keys ascend, and none comes twice.
  abbrev pub IsAscending : Dict V → Type 0
  IsAscending [] = Unit
  IsAscending (e ∷ l) = All (λ (f : ℕ × V). e.0 < f.0) l × IsAscending l

  lookup-insert_sorted :
      (k : ℕ) (e : ℕ × V) (l : Dict V)
      → lookup k (insert_sorted e l) ≡ (if e.0 == k then some e.1 else lookup k l)
  unfolding lookup insert_sorted
  lookup-insert_sorted k e [] = refl
  lookup-insert_sorted k e (f ∷ l) = ground (arith, lookup-insert_sorted k e l)

  pub lookup-sort_by_key : (k : ℕ) (l : Dict V) → lookup k (sort_by_key l) ≡ lookup k l
  unfolding sort_by_key lookup
  lookup-sort_by_key k [] = refl
  lookup-sort_by_key k (e ∷ l) =
      ground (arith, lookup-insert_sorted k e (sort_by_key l), lookup-sort_by_key k l)

  below-insert_sorted :
      (k : ℕ) (e : ℕ × V) (l : Dict V)
      → k < e.0
      → All (λ (f : ℕ × V). k < f.0) l
      → All (λ (f : ℕ × V). k < f.0) (insert_sorted e l)
  unfolding insert_sorted
  below-insert_sorted k e [] h a = (h, tt)
  below-insert_sorted k e (f ∷ l) h a = ground (arith, below-insert_sorted k e l h a.1)

  below_trans :
      (j k : ℕ) (l : Dict V)
      → j < k
      → All (λ (f : ℕ × V). k < f.0) l
      → All (λ (f : ℕ × V). j < f.0) l
  below_trans j k [] h a = tt
  below_trans j k (f ∷ l) h a = (omega arith, below_trans j k l h a.1)

  insert_sorted-IsAscending :
      (e : ℕ × V) (l : Dict V)
      → lookup e.0 l ≡ none
      → IsAscending l
      → IsAscending (insert_sorted e l)
  unfolding insert_sorted lookup
  insert_sorted-IsAscending e [] h a = (tt, tt)
  insert_sorted-IsAscending e (f ∷ l) h a =
      ground
        (arith, insert_sorted-IsAscending e l, below_trans e.0 f.0 l, below-insert_sorted f.0 e l)

  pub sort_by_key-IsAscending : (l : Dict V) → IsDistinct l → IsAscending (sort_by_key l)
  unfolding sort_by_key
  sort_by_key-IsAscending [] h = tt
  sort_by_key-IsAscending (e ∷ l) h =
      insert_sorted-IsAscending e (sort_by_key l) (lookup-sort_by_key e.0 l ∙ h.0)
        (sort_by_key-IsAscending l h.1)

  lookup_below : (k : ℕ) (l : Dict V) → All (λ (f : ℕ × V). k < f.0) l → lookup k l ≡ none
  unfolding lookup
  lookup_below k [] h = refl
  lookup_below k (f ∷ l) h = ground (arith, lookup_below k l h.1)

  lookup_above : (j k : ℕ) (l : Dict V) → j ≤ k → All (λ (f : ℕ × V). k < f.0) l → lookup j l ≡ none
  unfolding lookup
  lookup_above j k [] h a = refl
  lookup_above j k (f ∷ l) h a = ground (arith, lookup_above j k l h a.1)

  heads_agree :
      (e f : ℕ × V) (l m : Dict V)
      → IsAscending (e ∷ l)
      → IsAscending (f ∷ m)
      → ((k : ℕ) → lookup k (e ∷ l) ≡ lookup k (f ∷ m))
      → (e.0 ≡ f.0) × (e.1 ≡ f.1)
  unfolding lookup
  heads_agree e f l m a b h =
      ground (arith, h e.0, h f.0, lookup_above e.0 f.0 m, lookup_above f.0 e.0 l)

  tails_agree :
      (e f : ℕ × V) (l m : Dict V)
      → IsAscending (e ∷ l)
      → IsAscending (f ∷ m)
      → ((k : ℕ) → lookup k (e ∷ l) ≡ lookup k (f ∷ m))
      → (k : ℕ) → lookup k l ≡ lookup k m
  unfolding lookup
  tails_agree e f l m a b h k =
      ground (arith, heads_agree e f l m a b h, h k, lookup_above k e.0 l, lookup_above k f.0 m)

  -- Ascending lists with the same lookups are equal.
  pub ascending_unique :
      (l m : Dict V) → IsAscending l → IsAscending m → ((k : ℕ) → lookup k l ≡ lookup k m) → l ≡ m
  unfolding lookup
  ascending_unique [] [] a b h = refl
  ascending_unique [] (f ∷ m) a b h = absurd (ground (arith, h f.0))
  ascending_unique (e ∷ l) [] a b h = absurd (ground (arith, h e.0))
  ascending_unique (e ∷ l) (f ∷ m) a b h =
      let (p, q) = heads_agree e f l m a b h in
      let rest = ascending_unique l m a.1 b.1 (tails_agree e f l m a b h) in
      λ i. (p i, q i) ∷ rest i

  -- The sorted entries are determined by the lookups.
  pub sort_by_key_unique :
      (d e : Dict V)
      → IsDistinct d
      → IsDistinct e
      → ((k : ℕ) → lookup k d ≡ lookup k e)
      → sort_by_key d ≡ sort_by_key e
  sort_by_key_unique d e hd he h =
      ascending_unique (sort_by_key d) (sort_by_key e) (sort_by_key-IsAscending d hd)
        (sort_by_key-IsAscending e he)
        λ k. lookup-sort_by_key k d ∙ h k ∙ sym (lookup-sort_by_key k e)
