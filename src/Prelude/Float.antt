-- ===== src/Prelude/Float.antt =====
-- Rust's `f64`. Every finite one is a whole number of units of 2^-1074, with a sign; an operation
-- gives the exact result rounded to the nearest number of 53 bits, to the even one of two.
pub mod Ops
mod Tests
use Prim.Native.Nat.{ℕ, zero, suc, ◌+◌, ◌-◌, ◌*◌, ◌/◌, ◌%◌, ◌^◌}
use mathlib.Core.Bool.{Bool, true, false, not, ◌&&◌, ◌||◌}
use mathlib.Core.List.{List, [], ◌∷◌}
use kainotes.Prelude.Tests.{ltb, leb, ◌==◌, if◌then◌else◌}

-- A finite number has its sign first.
pub data F64 : Type 0 where
  finite : Bool → ℕ → F64
  infinite : Bool → F64
  nan : F64

-- the units of one
abbrev pub one_in_units : ℕ
one_in_units = 2 ^ 1074

-- the powers of two that the search for the leading bit takes off
abbrev widths : List ℕ
widths = 4096 ∷ 2048 ∷ 1024 ∷ 512 ∷ 256 ∷ 128 ∷ 64 ∷ 32 ∷ 16 ∷ 8 ∷ 4 ∷ 2 ∷ 1 ∷ []

shifted : ℕ → ℕ → ℕ × ℕ
shifted w n = if leb (2 ^ w) n then (w, n / 2 ^ w) else (0, n)

log2_by : List ℕ → ℕ → ℕ
unfolding shifted
log2_by [] n = 0
log2_by (w ∷ ws) n = let (taken, rest) = shifted w n in taken + log2_by ws rest

-- the position of the leading bit of a number below 2^8191
unfoldable pub log2 : ℕ → ℕ
unfolding log2_by shifted
log2 n = log2_by widths n

-- The whole number nearest to p / q, the even one of two.
unfoldable pub nearest : ℕ → ℕ → ℕ
nearest p q =
    let n = p / q in
    let twice = 2 * (p % q) in
    if ltb q twice then n + 1 else (if twice == q && n % 2 == 1 then n + 1 else n)

-- p / q units, rounded
unfoldable pub round : Bool → ℕ → ℕ → F64
unfolding log2 nearest
round sign p q =
    let step = 2 ^ (log2 (p / q) - 52) in
    let units = nearest p (q * step) * step in
    if leb (2 ^ 1024 * one_in_units) units then infinite sign else finite sign units

-- `as f64` of an unsigned number
unfoldable pub of_nat : ℕ → F64
unfolding round
of_nat n = round false (n * one_in_units) 1

xor : Bool → Bool → Bool
xor a b = if a then not b else b

unfoldable pub negate : F64 → F64
negate (finite s a) = finite (not s) a
negate (infinite s) = infinite (not s)
negate nan = nan

add_signed : Bool → ℕ → Bool → ℕ → F64
unfolding xor round
add_signed s a t b =
    if xor s t
    then (if ltb b a
        then round s (a - b) 1
        else (if ltb a b then round t (b - a) 1 else finite false 0))
    else round s (a + b) 1

unfoldable pub add : F64 → F64 → F64
unfolding add_signed xor
add (finite s a) (finite t b) = add_signed s a t b
add (finite s a) (infinite t) = infinite t
add (infinite s) (finite t b) = infinite s
add (infinite s) (infinite t) = if xor s t then nan else infinite s
add (finite s a) nan = nan
add (infinite s) nan = nan
add nan y = nan

unfoldable pub sub : F64 → F64 → F64
unfolding add negate
sub x y = add x (negate y)

unfoldable pub mul : F64 → F64 → F64
unfolding round xor
mul (finite s a) (finite t b) = round (xor s t) (a * b) one_in_units
mul (finite s a) (infinite t) = if a == 0 then nan else infinite (xor s t)
mul (infinite s) (finite t b) = if b == 0 then nan else infinite (xor s t)
mul (infinite s) (infinite t) = infinite (xor s t)
mul (finite s a) nan = nan
mul (infinite s) nan = nan
mul nan y = nan

unfoldable pub div : F64 → F64 → F64
unfolding round xor
div (finite s a) (finite t b) =
    if b == 0
    then (if a == 0 then nan else infinite (xor s t))
    else round (xor s t) (a * one_in_units) b
div (finite s a) (infinite t) = finite (xor s t) 0
div (infinite s) (finite t b) = infinite (xor s t)
div (infinite s) (infinite t) = nan
div (finite s a) nan = nan
div (infinite s) nan = nan
div nan y = nan

below : Bool → ℕ → Bool → ℕ → Bool
below false a false b = ltb a b
below false a true b = false
below true a false b = ltb 0 (a + b)
below true a true b = ltb b a

-- `<`
unfoldable pub less : F64 → F64 → Bool
unfolding below
less (finite s a) (finite t b) = below s a t b
less (finite s a) (infinite t) = not t
less (infinite s) (finite t b) = s
less (infinite s) (infinite t) = s && not t
less (finite s a) nan = false
less (infinite s) nan = false
less nan y = false

same : Bool → ℕ → Bool → ℕ → Bool
unfolding xor
same s a t b = (a == b) && (not (xor s t) || (a == 0))

-- `==`
unfoldable pub equal : F64 → F64 → Bool
unfolding same xor
equal (finite s a) (finite t b) = same s a t b
equal (infinite s) (infinite t) = not (xor s t)
equal _ _ = false

-- `as` an unsigned word: towards zero, and to the nearest bound when out of range
unfoldable pub to_word : ℕ → F64 → ℕ
to_word modulus (finite false a) =
    let n = a / one_in_units in if ltb n modulus then n else modulus - 1
to_word modulus (finite true a) = 0
to_word modulus (infinite false) = modulus - 1
to_word modulus (infinite true) = 0
to_word modulus nan = 0

-- the square root of a whole number, rounded down: Newton's steps from above
root_steps : ℕ → ℕ → ℕ → ℕ
root_steps zero n x = x
root_steps (suc fuel) n x =
    let y = (x + n / x) / 2 in let rest = root_steps fuel n y in if ltb y x then rest else x

unfoldable pub floor_root : ℕ → ℕ
unfolding root_steps log2
floor_root n = if n == 0 then 0 else root_steps 64 n (2 ^ (log2 n / 2 + 1))

root_of : ℕ → ℕ
unfolding floor_root log2
root_of n =
    let step = 2 ^ (log2 (floor_root n) - 52) in
    let m = floor_root (n / (step * step)) in
    (if ltb ((2 * m + 1) * (2 * m + 1) * (step * step)) (4 * n) then m + 1 else m) * step

-- `f64::sqrt`
unfoldable pub sqrt : F64 → F64
unfolding root_of
sqrt (finite s a) =
    if a == 0 then finite s a else (if s then nan else finite false (root_of (a * one_in_units)))
sqrt (infinite s) = if s then nan else infinite s
sqrt nan = nan
