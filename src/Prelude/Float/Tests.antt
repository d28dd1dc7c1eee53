-- ===== src/Prelude/Float/Tests.antt =====
-- Sums, products and quotients of `f64` evaluated.
use Prim.Native.Nat.{◌+◌, ◌*◌, ◌^◌}
use mathlib.Core.Path.{◌≡◌, refl}
use mathlib.Core.Bool.{true, false}
use kainotes.Prelude.Float.{infinite, of_nat, add, sub, mul, div, sqrt, less, to_word}

-- 1000 * 1.5
product : to_word (2 ^ 64) (mul (of_nat 1000) (div (of_nat 3) (of_nat 2))) ≡ 1500
unfolding to_word mul of_nat div
product = refl

-- 2^53 + 1 is not a number of 53 bits.
rounded : of_nat (2 ^ 53 + 1) ≡ of_nat (2 ^ 53)
unfolding of_nat
rounded = refl

-- 0.1 + 0.2 is above 0.3.
above :
    less
      (div (of_nat 3) (of_nat 10))
      (add (div (of_nat 1) (of_nat 10)) (div (of_nat 2) (of_nat 10)))
    ≡ true
unfolding less add div of_nat
above = refl

-- A negative number is cast to zero.
negative : to_word (2 ^ 64) (sub (of_nat 1) (of_nat 2)) ≡ 0
unfolding to_word sub of_nat
negative = refl

by_zero : div (of_nat 1) (of_nat 0) ≡ infinite false
unfolding div of_nat
by_zero = refl

-- The root of two, in units.
root_two : to_word (2 ^ 64) (mul (sqrt (of_nat 2)) (of_nat (10 ^ 15))) ≡ 1414213562373095
unfolding to_word mul sqrt of_nat
root_two = refl

root_square : sqrt (of_nat (94906265 * 94906265)) ≡ of_nat 94906265
unfolding sqrt of_nat
root_square = refl
