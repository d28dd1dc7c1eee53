-- ===== src/Dict/Ordered.antt =====
-- `BTreeMap` of Rust's standard library, keyed by numbers: the entries in ascending order of their
-- keys, which is its iteration order. `lookup` and `remove` are those of `Dict`.
use kainotes.Prelude.{
  ℕ, ◌<◌, ◌≡◌, refl, some, [], ◌∷◌, arith, All, ◌==◌, ltb, if◌then◌else◌, Bool-cases, ltb→lt, inl,
  inr, subst,
}
use kainotes.Dict.{Dict, lookup, remove}
use kainotes.Dict.Sorted.{IsAscending}

module _ {V : Type 0} where
  -- `insert`
  unfoldable pub insert_ordered : ℕ → V → Dict V → Dict V
  insert_ordered k v [] = (k, v) ∷ []
  insert_ordered k v ((j, w) ∷ d) =
      let rest = insert_ordered k v d in
      if ltb j k then (j, w) ∷ rest else if j == k then (k, v) ∷ d else (k, v) ∷ (j, w) ∷ d

  pub lookup-insert_ordered :
      (j k : ℕ) (v : V) (d : Dict V)
      → lookup j (insert_ordered k v d) ≡ (if k == j then some v else lookup j d)
  unfolding lookup insert_ordered
  lookup-insert_ordered j k v [] = refl
  lookup-insert_ordered j k v ((i, w) ∷ d) = ground (arith, lookup-insert_ordered j k v d)

  above-insert_ordered :
      (i k : ℕ) (v : V) (d : Dict V)
      → i < k
      → All (λ (f : ℕ × V). i < f.0) d
      → All (λ (f : ℕ × V). i < f.0) (insert_ordered k v d)
  unfolding insert_ordered
  above-insert_ordered i k v [] h a = (h, tt)
  above-insert_ordered i k v ((j, w) ∷ d) h a = ground (arith, above-insert_ordered i k v d h a.1)

  above_trans :
      (i j : ℕ) (d : Dict V)
      → i < j
      → All (λ (f : ℕ × V). j < f.0) d
      → All (λ (f : ℕ × V). i < f.0) d
  above_trans i j [] h a = tt
  above_trans i j (f ∷ d) h a = (omega arith, above_trans i j d h a.1)

  pub insert_ordered-IsAscending :
      (k : ℕ) (v : V) (d : Dict V) → IsAscending d → IsAscending (insert_ordered k v d)
  unfolding insert_ordered
  insert_ordered-IsAscending k v [] h = (tt, tt)
  insert_ordered-IsAscending k v ((j, w) ∷ d) h = elim (Bool-cases (ltb j k)) [
    | inl less ↦
        rw less
          (above-insert_ordered j k v d (ltb→lt j k less) h.0, insert_ordered-IsAscending k v d h.1)
    | inr not_less ↦ elim (Bool-cases (j == k)) [
      | inl same ↦
          let e : j ≡ k = ground (arith, same) in
          rw (not_less, same) (subst (λ i. All (λ (f : ℕ × V). i < f.0) d) e h.0, h.1)
      | inr other ↦
          let less : k < j = ground (arith, not_less, other) in
          rw (not_less, other) ((less, above_trans k j d less h.0), h)
    ]
  ]

  above-remove :
      (i k : ℕ) (d : Dict V)
      → All (λ (f : ℕ × V). i < f.0) d
      → All (λ (f : ℕ × V). i < f.0) (remove k d)
  unfolding remove
  above-remove i k [] a = tt
  above-remove i k ((j, w) ∷ d) a = ground (arith, above-remove i k d a.1)

  pub remove-IsAscending : (k : ℕ) (d : Dict V) → IsAscending d → IsAscending (remove k d)
  unfolding remove
  remove-IsAscending k [] h = tt
  remove-IsAscending k ((j, w) ∷ d) h =
      ground (arith, remove-IsAscending k d h.1, above-remove j k d h.0)
