-- ===== src/Prelude/Float/Ops.antt =====
-- The methods of `f64` that the program calls, and the range of the casts to words.
use Prim.Native.Nat.{ℕ, ◌<◌, ◌≤◌, ◌*◌}
use mathlib.Core.Bool.{Bool, true, false, ◌||◌}
use native.Mathlib.Omega.{arith}
use kainotes.Prelude.Tests.{if◌then◌else◌}
use kainotes.Prelude.Float.{
  one_in_units, F64, finite, infinite, nan, of_nat, div, less, equal, to_word,
}

-- `<=`
unfoldable pub at_most : F64 → F64 → Bool
unfolding less equal
at_most x y = less x y || equal x y

-- `f64::min`, which passes over what is not a number
unfoldable pub fmin : F64 → F64 → F64
unfolding less
fmin nan y = y
fmin (finite s a) nan = finite s a
fmin (infinite s) nan = infinite s
fmin (finite s a) (finite t b) = if less (finite t b) (finite s a) then finite t b else finite s a
fmin (finite s a) (infinite t) = if t then infinite t else finite s a
fmin (infinite s) (finite t b) = if s then infinite s else finite t b
fmin (infinite s) (infinite t) = if t then infinite t else infinite s

unfoldable pub fmax : F64 → F64 → F64
unfolding less
fmax nan y = y
fmax (finite s a) nan = finite s a
fmax (infinite s) nan = infinite s
fmax (finite s a) (finite t b) = if less (finite s a) (finite t b) then finite t b else finite s a
fmax (finite s a) (infinite t) = if t then finite s a else infinite t
fmax (infinite s) (finite t b) = if s then finite t b else infinite s
fmax (infinite s) (infinite t) = if t then infinite s else infinite t

-- `f64::abs`
unfoldable pub fabs : F64 → F64
fabs (finite s a) = finite false a
fabs (infinite s) = infinite false
fabs nan = nan

-- A literal, as a quotient of whole numbers: division rounds as the compiler does.
unfoldable pub ratio : ℕ → ℕ → F64
unfolding of_nat div
ratio p q = div (of_nat p) (of_nat q)

pub to_word-lt : (m : ℕ) (x : F64) → 0 < m → to_word m x < m
unfolding to_word
to_word-lt m (finite false a) h = ground arith
to_word-lt m (finite true a) h = omega arith
to_word-lt m (infinite false) h = omega arith
to_word-lt m (infinite true) h = omega arith
to_word-lt m nan h = omega arith

-- A number that is at most a whole one is cast to a word that is at most that one.
pub to_word-fmin :
    (m n : ℕ) (x : F64) → 0 < m → to_word m (fmin x (finite false (n * one_in_units))) ≤ n
unfolding to_word fmin less
to_word-fmin m n nan h = ground arith
to_word-fmin m n (finite false a) h = ground arith
to_word-fmin m n (finite true a) h = ground arith
to_word-fmin m n (infinite false) h = ground arith
to_word-fmin m n (infinite true) h = ground arith
