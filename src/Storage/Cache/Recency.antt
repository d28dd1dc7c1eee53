-- ===== src/Storage/Cache/Recency.antt =====
-- The specification of the cache: the entries used last, up to its capacity, in the order of their
-- use.
use kainotes.Prelude.{
  ℕ, zero, suc, ◌-◌, ◌≤◌, ◌≡◌, refl, ap, ◌≢◌, none, some, List, [], ◌∷◌, arith, length, ◌==◌,
  if◌then◌else◌,
}
use kainotes.Dict.{Dict, lookup, remove, IsDistinct}
use kainotes.Storage.Cache.{without, last_of, but_last}

-- The first entries.
abbrev pub take {ℓ} : {A : Type ℓ} → ℕ → List A → List A
take zero xs = []
take (suc n) [] = []
take (suc n) (x ∷ xs) = x ∷ take n xs

abbrev pub keys : {V : Type 0} → Dict V → List ℕ
keys [] = []
keys ((k, v) ∷ d) = k ∷ keys d

module _ {V : Type 0} where
  -- An entry is used: it comes first, its old place is given up, and what is past the capacity goes.
  abbrev pub remember : ℕ → ℕ → V → Dict V → Dict V
  remember capacity k v r = take capacity ((k, v) ∷ remove k r)

  pub keys-remove : (k : ℕ) (r : Dict V) → keys (remove k r) ≡ without k (keys r)
  unfolding remove
  keys-remove k [] = refl
  keys-remove k ((j, v) ∷ r) = ground (arith, keys-remove k r)

  pub take_all : (n : ℕ) (r : Dict V) → length r ≤ n → take n r ≡ r
  take_all zero [] h = refl
  take_all zero (e ∷ r) h = absurd (omega (arith, h))
  take_all (suc n) [] h = refl
  take_all (suc n) (e ∷ r) h = ap (λ xs. e ∷ xs) (take_all n r (omega (arith, h)))

  pub take-but_last : (n : ℕ) (r : Dict V) → length r ≡ suc n → take n r ≡ but_last r
  take-but_last n [] h = absurd (omega (arith, h))
  take-but_last zero (e ∷ []) h = refl
  take-but_last (suc n) (e ∷ []) h = absurd (omega (arith, h))
  take-but_last zero (e ∷ f ∷ r) h = absurd (omega (arith, h))
  take-but_last (suc n) (e ∷ f ∷ r) h =
      ap (λ xs. e ∷ xs) (take-but_last n (f ∷ r) (omega (arith, h)))

  pub keys-but_last : (r : Dict V) → keys (but_last r) ≡ but_last (keys r)
  keys-but_last [] = refl
  keys-but_last (e ∷ []) = refl
  keys-but_last (e ∷ f ∷ r) = ap (λ xs. e.0 ∷ xs) (keys-but_last (f ∷ r))

  pub length-but_last : (r : Dict V) → length (but_last r) ≡ length r - 1
  length-but_last [] = refl
  length-but_last (e ∷ []) = omega arith
  length-but_last (e ∷ f ∷ r) = omega (arith, length-but_last (f ∷ r))

  pub last_known : (r : Dict V) (o : ℕ) → last_of (keys r) ≡ some o → lookup o r ≢ none
  unfolding lookup
  last_known [] o h = absurd (ground (arith, h))
  last_known ((k, v) ∷ []) o h = ground (arith, h)
  last_known ((k, v) ∷ (l, w) ∷ r) o h = ground (arith, last_known ((l, w) ∷ r) o h)

  -- The last key is there once, and its entry is what goes.
  pub lookup-but_last :
      (j o : ℕ) (r : Dict V)
      → IsDistinct r
      → last_of (keys r) ≡ some o
      → lookup j (but_last r) ≡ (if o == j then none else lookup j r)
  unfolding lookup
  lookup-but_last j o [] d h = absurd (ground (arith, h))
  lookup-but_last j o ((k, v) ∷ []) d h = ground (arith, h)
  lookup-but_last j o ((k, v) ∷ (l, w) ∷ r) d h =
      ground (arith, lookup-but_last j o ((l, w) ∷ r) d.1 h, last_known ((l, w) ∷ r) o h, d.0)
