-- ===== src/Crypto/Merkle/Array.antt =====
-- Checked reads and writes of a vector, and their laws where the index is in bounds.
use kainotes.Prelude.{
  ℕ, zero, suc, ◌≤◌, ◌<◌, ◌≡◌, refl, List, [], ◌∷◌, arith, ap, length, ◌==◌, if◌then◌else◌,
}
use kainotes.Prelude.Result.{Result, ok, panic, ◌>>=◌}
use kainotes.Core.Error.{CryptoError}

module _ {A : Type 0} where
  -- `nodes[i]`
  unfoldable pub read : List A → ℕ → Result CryptoError A
  read [] i = panic
  read (x ∷ xs) zero = ok x
  read (x ∷ xs) (suc i) = read xs i

  -- `nodes[i] = v`
  unfoldable pub write : List A → ℕ → A → Result CryptoError (List A)
  write [] i v = panic
  write (x ∷ xs) zero v = ok (v ∷ xs)
  write (x ∷ xs) (suc i) v = do rest ← write xs i v; ok (x ∷ rest)

  -- The write where the index is in bounds.
  pub set : List A → ℕ → A → List A
  set [] i v = []
  set (x ∷ xs) zero v = v ∷ xs
  set (x ∷ xs) (suc i) v = x ∷ set xs i v

  pub read_out : (xs : List A) (i : ℕ) → length xs ≤ i → read xs i ≡ panic
  unfolding read
  read_out [] i h = refl
  read_out (x ∷ xs) zero h = absurd (omega arith)
  read_out (x ∷ xs) (suc i) h = read_out xs i (omega arith)

  pub write_out : (xs : List A) (i : ℕ) (v : A) → length xs ≤ i → write xs i v ≡ panic
  unfolding write
  write_out [] i v h = refl
  write_out (x ∷ xs) zero v h = absurd (omega arith)
  write_out (x ∷ xs) (suc i) v h = rw (write_out xs i v (omega arith))

  pub write_lem : (xs : List A) (i : ℕ) (v : A) → i < length xs → write xs i v ≡ ok (set xs i v)
  unfolding write set
  write_lem [] i v h = absurd (omega arith)
  write_lem (x ∷ xs) zero v h = refl
  write_lem (x ∷ xs) (suc i) v h = rw (write_lem xs i v (omega arith))

  pub length-set : (xs : List A) (i : ℕ) (v : A) → length (set xs i v) ≡ length xs
  unfolding set
  length-set [] i v = refl
  length-set (x ∷ xs) zero v = refl
  length-set (x ∷ xs) (suc i) v = ap suc (length-set xs i v)

  pub read-set :
      (xs : List A) (i j : ℕ) (v : A)
      → i < length xs
      → read (set xs i v) j ≡ (if i == j then ok v else read xs j)
  unfolding read set
  read-set [] i j v h = absurd (omega arith)
  read-set (x ∷ xs) zero zero v h = refl
  read-set (x ∷ xs) zero (suc j) v h = ground arith
  read-set (x ∷ xs) (suc i) zero v h = ground arith
  read-set (x ∷ xs) (suc i) (suc j) v h = ground (arith, read-set xs i j v)

-- `vec![Hash::zero(); n]`
abbrev pub zeros : ℕ → List ℕ
zeros zero = []
zeros (suc n) = 0 ∷ zeros n

pub length-zeros : (n : ℕ) → length (zeros n) ≡ n
length-zeros zero = refl
length-zeros (suc n) = ap suc (length-zeros n)

-- A read with a default, for statements about indices that are in bounds.
pub get_or : List ℕ → ℕ → ℕ
get_or [] i = 0
get_or (x ∷ xs) zero = x
get_or (x ∷ xs) (suc i) = get_or xs i

pub read_lem : (xs : List ℕ) (i : ℕ) → i < length xs → read xs i ≡ ok (get_or xs i)
unfolding read get_or
read_lem [] i h = absurd (omega arith)
read_lem (x ∷ xs) zero h = refl
read_lem (x ∷ xs) (suc i) h = read_lem xs i (omega arith)

pub get_or-set :
    (xs : List ℕ) (i j v : ℕ)
    → i < length xs
    → get_or (set xs i v) j ≡ (if i == j then v else get_or xs j)
unfolding get_or set
get_or-set [] i j v h = absurd (omega arith)
get_or-set (x ∷ xs) zero zero v h = refl
get_or-set (x ∷ xs) zero (suc j) v h = ground arith
get_or-set (x ∷ xs) (suc i) zero v h = ground arith
get_or-set (x ∷ xs) (suc i) (suc j) v h = ground (arith, get_or-set xs i j v)
