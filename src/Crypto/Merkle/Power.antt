-- ===== src/Crypto/Merkle/Power.antt =====
-- Powers of two, and `usize::next_power_of_two` of Rust's standard library.
use kainotes.Prelude.{
  ℕ, zero, suc, ◌+◌, ◌≤◌, ◌<◌, ◌≡◌, refl, true, false, arith, ltb, Bool-cases, inl, inr,
}

abbrev pub pow2 : ℕ → ℕ
pow2 zero = 1
pow2 (suc k) = pow2 k + pow2 k

pub pow2_pos : (k : ℕ) → 0 < pow2 k
pow2_pos zero = omega arith
pow2_pos (suc k) = omega (arith, pow2_pos k)

-- Doubles `p` until it reaches `n`, with fuel.
pub double_until : ℕ → ℕ → ℕ → ℕ
double_until zero p n = p
double_until (suc f) p n = elim (ltb p n) [ true ↦ double_until f (p + p) n | false ↦ p ]

unfoldable pub next_power_of_two : ℕ → ℕ
unfolding double_until
next_power_of_two n = double_until n 1 n

double_until_lem :
    (f j n : ℕ)
    → n ≤ pow2 j + f
    → pow2 j < n + n
    → (m : ℕ) × (double_until f (pow2 j) n ≡ pow2 m) × (n ≤ pow2 m) × (pow2 m < n + n)
unfolding double_until
double_until_lem zero j n h k = (j, refl, omega arith, k)
double_until_lem (suc f) j n h k = elim (Bool-cases (ltb (pow2 j) n)) [
  | inl less ↦
      rw (less, double_until)
        (double_until_lem f (suc j) n (ground (arith, less, pow2_pos j)) (ground (arith, less)))
  | inr more ↦ (j, rw (more, double_until), ground (arith, more), k)
]

-- It is the power of two that is at least `n` and less than twice `n`.
pub next_power_of_two_lem :
    (n : ℕ) → 0 < n → (m : ℕ) × (next_power_of_two n ≡ pow2 m) × (n ≤ pow2 m) × (pow2 m < n + n)
unfolding next_power_of_two
next_power_of_two_lem n h = double_until_lem n 0 n (omega arith) (omega arith)

pub pow2_squeeze : (k m : ℕ) → pow2 k ≤ pow2 m → pow2 m < pow2 k + pow2 k → pow2 m ≡ pow2 k
pow2_squeeze zero zero h i = refl
pow2_squeeze zero (suc m) h i = absurd (omega (arith, pow2_pos m))
pow2_squeeze (suc k) zero h i = absurd (omega (arith, pow2_pos k))
pow2_squeeze (suc k) (suc m) h i = omega (arith, pow2_squeeze k m (omega arith) (omega arith))

pub next_power_of_two-pow2 : (k : ℕ) → next_power_of_two (pow2 k) ≡ pow2 k
next_power_of_two-pow2 k =
    let (m, e, above, below) = next_power_of_two_lem (pow2 k) (pow2_pos k) in
    omega (arith, e, pow2_squeeze k m above below)
