-- ===== src/Contracts/Gas/Memory.antt =====
-- `calculate_memory_gas` of crates/smart-contracts/src/gas.rs, on growth in one step and in two.
use kainotes.Prelude.{
  ℕ, ◌+◌, ◌-◌, ◌*◌, ◌/◌, ◌%◌, ◌^◌, ◌≤◌, ◌<◌, ◌≡◌, refl, sym, ap, ◌∙◌, arith, leb, u64_mod, true,
  false, Bool-cases, inl, inr,
}
use native.Mathlib.Nat.{mul-le-mul, add-mul, zero-mul}
use kainotes.Contracts.Gas.{GasConfig, add64, mul64, sub64, calculate_memory_gas}

-- The words of a size, and what they cost without the wrap-around.
abbrev pub words : ℕ → ℕ
words size = (size + 31) / 32

abbrev pub quadratic : ℕ → ℕ
quadratic size = words size * words size / 512

-- The words of a size in the range, and the products over them, stay far below 2^64.
square_bound : (a b : ℕ) → a ≤ b → b ≤ 2 ^ 31 → a * a ≤ b * b × (b * b ≤ 2 ^ 62)
square_bound a b h l =
    let top : b * b ≤ 2 ^ 31 * 2 ^ 31 = mul-le-mul l l in (mul-le-mul h h, omega (arith, top))

linear_bound : (d m : ℕ) → d ≤ 2 ^ 31 → m < 2 ^ 24 → d * m ≤ 2 ^ 55
linear_bound d m h l =
    let small : m ≤ 2 ^ 24 = omega (arith, l) in
    let top : d * m ≤ 2 ^ 31 * 2 ^ 24 = mul-le-mul h small in omega (arith, top)

no_words : (w m : ℕ) → (w - w) * m ≡ 0
no_words w m = let e : w - w ≡ 0 = omega arith in ap (λ d. d * m) e ∙ zero-mul m

-- The last step of the price, where the products do not wrap around.
last_step :
    (l a b : ℕ)
    → l ≤ 2 ^ 55
    → a ≤ b
    → b ≤ 2 ^ 62
    → sub64 (add64 (l % u64_mod) (b % u64_mod / 512)) (a % u64_mod / 512) + a / 512 ≡ l + b / 512
last_step l a b hl ha hb = omega arith

-- The price between two numbers of words.
abbrev price : ℕ → ℕ → ℕ → ℕ
price m v w = sub64 (add64 (mul64 (sub64 w v) m) (mul64 w w / 512)) (mul64 v v / 512)

price-exact :
    (m v w : ℕ)
    → v ≤ w
    → w ≤ 2 ^ 31
    → m < 2 ^ 24
    → price m v w + v * v / 512 ≡ (w - v) * m + w * w / 512
price-exact m v w h l p =
    let (square, top) = square_bound v w h l in
    let linear = linear_bound (w - v) m (omega (arith, l)) p in
    let difference : sub64 w v ≡ w - v = omega (arith, h, l) in
    ap (λ d. sub64 (add64 (mul64 d m) (mul64 w w / 512)) (mul64 v v / 512) + v * v / 512) difference
    ∙ last_step ((w - v) * m) (v * v) (w * w) linear square top

memory_price :
    (config : GasConfig) (a b : ℕ)
    → a < b
    → b < 2 ^ 36
    → calculate_memory_gas config a b ≡ price config.memory_gas (words a) (words b)
unfolding calculate_memory_gas
memory_price config a b h l =
    let grows : leb b a ≡ false = ground (arith, h) in
    let wa : add64 a 31 / 32 ≡ words a = omega (arith, h, l) in
    let wb : add64 b 31 / 32 ≡ words b = omega (arith, l) in
    rw grows (λ i. price config.memory_gas (wa i) (wb i))

memory_same : (config : GasConfig) (a : ℕ) → calculate_memory_gas config a a ≡ 0
unfolding calculate_memory_gas
memory_same config a = let stays : leb a a ≡ true = ground arith in rw stays refl

-- Sizes below 2^36 and a linear price below 2^24 keep every sum and product in a word.
memory_exact :
    (config : GasConfig) (a b : ℕ)
    → a ≤ b
    → b < 2 ^ 36
    → config.memory_gas < 2 ^ 24
    → calculate_memory_gas config a b + quadratic a
      ≡ (words b - words a) * config.memory_gas + quadratic b
memory_exact config a b h l p = elim (Bool-cases (leb b a)) [
  | inl same ↦
      let e : a ≡ b = ground (arith, same, h) in
      let none_more : (words b - words a) * config.memory_gas ≡ 0 =
        ap (λ x. (words x - words a) * config.memory_gas) (sym e)
        ∙ no_words (words a) config.memory_gas in
      let zero_gas : calculate_memory_gas config a b ≡ 0 =
        ap (calculate_memory_gas config a) (sym e) ∙ memory_same config a in
      let q : quadratic a ≡ quadratic b = ap quadratic e in omega (arith, none_more, zero_gas, q)
  | inr grows ↦
      ap (λ g. g + quadratic a) (memory_price config a b (ground (arith, grows)) l)
      ∙ price-exact config.memory_gas (words a) (words b) (omega arith) (omega arith) p
]

-- Growing from one size to a second and from there to a third costs exactly what growing from the
-- first to the third at once costs, for sizes below 2^36 and a linear price below 2^24.
memory_adds_up :
    (config : GasConfig) (a b c : ℕ)
    → a ≤ b
    → b ≤ c
    → c < 2 ^ 36
    → config.memory_gas < 2 ^ 24
    → calculate_memory_gas config a b + calculate_memory_gas config b c
      ≡ calculate_memory_gas config a c
memory_adds_up config a b c h k l p =
    let m = config.memory_gas in
    let split : words c - words a ≡ (words c - words b) + (words b - words a) = omega arith in
    let linear : (words c - words a) * m ≡ (words c - words b) * m + (words b - words a) * m =
      ap (λ d. d * m) split ∙ add-mul (words c - words b) (words b - words a) m in
    omega (
      arith,
      linear,
      memory_exact config a b h (omega arith) p,
      memory_exact config b c k l p,
      memory_exact config a c (omega arith) l p,
    )
