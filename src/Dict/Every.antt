-- ===== src/Dict/Every.antt =====
-- A property of all entries of a map, under each update.
use kainotes.Prelude.{ℕ, ◌≡◌, some, [], ◌∷◌, arith, All, ◌==◌, ltb, Bool-cases, inl, inr, subst}
use kainotes.Dict.{Dict, lookup, insert, remove}
use kainotes.Dict.Ordered.{insert_ordered}

module _ {V : Type 0} (P : ℕ × V → Type 0) where
  pub All-insert : (k : ℕ) (v : V) (d : Dict V) → P (k, v) → All P d → All P (insert k v d)
  unfolding insert
  All-insert k v [] h a = (h, tt)
  All-insert k v ((j, w) ∷ d) h a = elim (Bool-cases (j == k)) [
    | inl same ↦ rw same (h, a.1)
    | inr other ↦ rw other (a.0, All-insert k v d h a.1)
  ]

  pub All-insert_ordered :
      (k : ℕ) (v : V) (d : Dict V) → P (k, v) → All P d → All P (insert_ordered k v d)
  unfolding insert_ordered
  All-insert_ordered k v [] h a = (h, tt)
  All-insert_ordered k v ((j, w) ∷ d) h a = elim (Bool-cases (ltb j k)) [
    | inl less ↦ rw less (a.0, All-insert_ordered k v d h a.1)
    | inr not_less ↦ elim (Bool-cases (j == k)) [
      | inl same ↦ rw (not_less, same) (h, a.1)
      | inr other ↦ rw (not_less, other) (h, a)
    ]
  ]

  pub All-remove : (k : ℕ) (d : Dict V) → All P d → All P (remove k d)
  unfolding remove
  All-remove k [] a = tt
  All-remove k ((j, w) ∷ d) a = elim (Bool-cases (j == k)) [
    | inl same ↦ rw same (All-remove k d a.1)
    | inr other ↦ rw other (a.0, All-remove k d a.1)
  ]

  pub All-lookup : (k : ℕ) (v : V) (d : Dict V) → All P d → lookup k d ≡ some v → P (k, v)
  unfolding lookup
  All-lookup k v [] a h = cc
  All-lookup k v ((j, w) ∷ d) a h = elim (Bool-cases (j == k)) [
    | inl same ↦ let e : (j, w) ≡ (k, v) = ground (arith, same, h) in subst P e a.0
    | inr other ↦ All-lookup k v d a.1 (ground (arith, other, h))
  ]
