-- ===== src/Dict/Sums.antt =====
-- How a measure summed over the values of a map, and the number of entries, change with an update.
use kainotes.Prelude.{ℕ, ◌+◌, ◌≤◌, ◌≡◌, Option, none, some, [], ◌∷◌, arith, length, sum_of}
use kainotes.Dict.{Dict, lookup, insert, remove, values, IsDistinct}
use kainotes.Dict.Laws.{remove_absent}

-- The measure of an entry that may be missing.
abbrev pub measured {ℓ} : {V : Type ℓ} → (V → ℕ) → Option V → ℕ
measured f none = 0
measured f (some v) = f v

module _ {ℓ} {V : Type ℓ} (f : V → ℕ) where
  -- The sum of `f` over the values of a map.
  abbrev pub total : Dict V → ℕ
  total d = sum_of f (values d)

  pub total-insert :
      (k : ℕ) (v : V) (d : Dict V) → total (insert k v d) + measured f (lookup k d) ≡ total d + f v
  unfolding insert lookup
  total-insert k v [] = omega arith
  total-insert k v ((j, w) ∷ d) = ground (arith, total-insert k v d)

  pub total-remove :
      (k : ℕ) (d : Dict V) → IsDistinct d → total (remove k d) + measured f (lookup k d) ≡ total d
  unfolding remove lookup
  total-remove k [] h = omega arith
  total-remove k ((j, w) ∷ d) h = ground (arith, total-remove k d h.1, remove_absent k d)

  pub le-total : (k : ℕ) (d : Dict V) → measured f (lookup k d) ≤ total d
  unfolding lookup
  le-total k [] = omega arith
  le-total k ((j, w) ∷ d) = ground (arith, le-total k d)

module _ {ℓ} {V : Type ℓ} where
  pub length-insert_new :
      (k : ℕ) (v : V) (d : Dict V) → lookup k d ≡ none → length (insert k v d) ≡ length d + 1
  unfolding insert lookup
  length-insert_new k v [] h = omega arith
  length-insert_new k v ((j, w) ∷ d) h = ground (arith, length-insert_new k v d)

  pub length-insert_old :
      (k : ℕ) (u v : V) (d : Dict V) → lookup k d ≡ some u → length (insert k v d) ≡ length d
  unfolding insert lookup
  length-insert_old k u v [] h = cc
  length-insert_old k u v ((j, w) ∷ d) h = ground (arith, length-insert_old k u v d)

  pub length-remove :
      (k : ℕ) (u : V) (d : Dict V)
      → IsDistinct d
      → lookup k d ≡ some u
      → length (remove k d) + 1 ≡ length d
  unfolding remove lookup
  length-remove k u [] h e = cc
  length-remove k u ((j, w) ∷ d) h e = ground (arith, length-remove k u d h.1, remove_absent k d)
