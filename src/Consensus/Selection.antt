-- ===== src/Consensus/Selection.antt =====
-- crates/consensus/src/selection.rs: the weights of the validators, and the choice by weight. The
-- generator is the `StdRng` of the `rand` crate: a type with the call `gen_range(0..bound)`.
pub mod Slots
pub mod Turns
pub mod Committee
mod Tests
use kainotes.Prelude.{
  ℕ, zero, suc, ◌+◌, ◌-◌, ◌/◌, ◌%◌, Bool, true, false, not, ◌&&◌, Option, none, some, List, [], ◌∷◌,
  ◌++◌, map, length, ltb, leb, ◌==◌, if◌then◌else◌, min, filter_by, sum_of, u64_mod,
}
use kainotes.Prelude.Result.{Result, ok, err, panic}
use kainotes.Prelude.Result.Exec.{Exec, pure, lift, gets, reject_if, ◌>>=◌, ◌>>◌}
use kainotes.Prelude.Float.{F64, of_nat, add, sub, mul, div, less, equal, to_word}
use kainotes.Core.Types.{Address, first_digit}
use kainotes.Core.Transaction.{is_empty}
use kainotes.Consensus.Error.{ConsensusError, selection_error}
use kainotes.Consensus.Validator.{
  ValidatorInfo, can_produce_blocks, reliability_factor, efficiency_score,
}

pub record SelectionWeight : Type 0 where
  pub address : Address
  pub weight : ℕ

unfoldable pub calculate_weight : ValidatorInfo → ℕ
unfolding can_produce_blocks reliability_factor efficiency_score
calculate_weight v =
    let utility = div (of_nat v.utility_score) (of_nat 1000) in
    let weight =
      mul
        (mul (mul (of_nat (first_digit v.stake)) (add (of_nat 1) (div utility (of_nat 10))))
          (reliability_factor v))
        (add (of_nat 1) (efficiency_score v)) in
    if not (can_produce_blocks v) then 0 else to_word u64_mod weight

unfoldable pub calculate_weights : List ValidatorInfo → List SelectionWeight
calculate_weights validators =
    filter_by (λ (w : SelectionWeight). ltb 0 w.weight)
      (map (λ (v : ValidatorInfo). record { address = v.address; weight = calculate_weight v })
        validators)

abbrev pub weight_of : SelectionWeight → ℕ
weight_of w = w.weight

-- The sum is one of 64-bit words.
abbrev pub total_weight : List SelectionWeight → ℕ
total_weight ws = sum_of weight_of ws % u64_mod

-- `weights[0].address`
abbrev first_address : List SelectionWeight → Result ConsensusError Address
first_address [] = panic
first_address (w ∷ ws) = ok w.address

-- The loop of `select_validator`, which takes the weights off the number drawn.
unfoldable pub take_off : ℕ → List SelectionWeight → Option Address
take_off selection [] = none
take_off selection (w ∷ ws) =
    let rest = take_off (selection - w.weight) ws in
    if ltb selection w.weight then some w.address else rest

-- The loop of `select_for_slot`, which adds the weights up in 64 bits.
unfoldable pub add_up : ℕ → ℕ → List SelectionWeight → Option Address
add_up selection accumulated [] = none
add_up selection accumulated (w ∷ ws) =
    let next = (accumulated + w.weight) % u64_mod in
    let rest = add_up selection next ws in if ltb selection next then some w.address else rest

abbrev or_first : Option Address → List SelectionWeight → Result ConsensusError Address
or_first none ws = first_address ws
or_first (some a) ws = ok a

unfoldable pub select_for_slot : List ValidatorInfo → ℕ → Result ConsensusError Address
unfolding add_up
select_for_slot validators slot =
    let weights = calculate_weights validators in
    let total = total_weight weights in
    if is_empty validators
    then err selection_error
    else if is_empty weights
    then err selection_error
    else if total == 0
    then err selection_error
    else or_first (add_up (slot % total) 0 weights) weights

module _ {Rng : Type 0} (gen_range : ℕ → Rng → ℕ × Rng) where
  -- The draw, and the choice by it.
  unfoldable pub draw : List SelectionWeight → Exec ConsensusError Rng Address
  unfolding take_off
  draw weights rng =
      let (selection, next) = gen_range (total_weight weights) rng in
      (or_first (take_off selection weights) weights, next)

  unfoldable pub select_validator : List ValidatorInfo → Exec ConsensusError Rng Address
  select_validator validators = do
    reject_if (is_empty validators) selection_error
    reject_if (is_empty (calculate_weights validators)) selection_error
    reject_if (total_weight (calculate_weights validators) == 0) selection_error
    draw (calculate_weights validators)

  -- `retain` of the validators at other addresses
  abbrev pub without_address : Address → List ValidatorInfo → List ValidatorInfo
  without_address a vs = filter_by (λ (v : ValidatorInfo). not (v.address == a)) vs

  -- The loop of `select_committee`.
  unfoldable pub pick : ℕ → List ValidatorInfo → Exec ConsensusError Rng (List Address)
  pick zero remaining = pure []
  pick (suc count) [] = pure []
  pick (suc count) (v ∷ vs) = do
    a ← select_validator (v ∷ vs)
    rest ← pick count (without_address a (v ∷ vs))
    pure (a ∷ rest)

  unfoldable pub select_committee : List ValidatorInfo → ℕ → Exec ConsensusError Rng (List Address)
  select_committee validators count = do
    reject_if (is_empty validators) selection_error
    pick (min count (length validators)) validators

-- `SelectionProbability::calculate_probability`
unfoldable pub calculate_probability : ValidatorInfo → ℕ → F64
unfolding calculate_weight
calculate_probability v total =
    if total == 0 then of_nat 0 else div (of_nat (calculate_weight v)) (of_nat total)

unfoldable pub expected_blocks : ValidatorInfo → ℕ → ℕ → F64
unfolding calculate_probability
expected_blocks v total epoch_blocks = mul (calculate_probability v total) (of_nat epoch_blocks)

-- A stable sort, the greatest first.
abbrev put_desc : ℕ → List ℕ → List ℕ
put_desc x [] = x ∷ []
put_desc x (y ∷ ys) = let rest = put_desc x ys in if ltb x y then y ∷ rest else x ∷ y ∷ ys

abbrev pub sorted_desc : List ℕ → List ℕ
sorted_desc [] = []
sorted_desc (x ∷ xs) = put_desc x (sorted_desc xs)

-- The loop that counts weights until the threshold is met.
unfoldable pub count_until : ℕ → ℕ → List ℕ → ℕ
count_until threshold accumulated [] = 0
count_until threshold accumulated (w ∷ ws) =
    let next = (accumulated + w) % u64_mod in
    let rest = count_until threshold next ws in if leb threshold next then 1 else 1 + rest

unfoldable pub nakamoto_coefficient : List ValidatorInfo → ℕ
unfolding calculate_weight count_until
nakamoto_coefficient validators =
    let weights = map calculate_weight validators in
    count_until ((sum_of (λ w. w) weights % u64_mod) / 3) 0 (sorted_desc weights)

-- A sort of numbers from floats, the least first. No weight is not a number.
abbrev put_asc : F64 → List F64 → List F64
put_asc x [] = x ∷ []
put_asc x (y ∷ ys) = let rest = put_asc x ys in if less y x then y ∷ rest else x ∷ y ∷ ys

abbrev sorted_asc : List F64 → List F64
sorted_asc [] = []
sorted_asc (x ∷ xs) = put_asc x (sorted_asc xs)

abbrev sum_up : F64 → List F64 → F64
sum_up acc [] = acc
sum_up acc (x ∷ xs) = sum_up (add acc x) xs

-- The loop of the numerator, from the place `i` on.
unfoldable pub gini_sum : F64 → ℕ → F64 → List F64 → F64
gini_sum n i acc [] = acc
gini_sum n i acc (x ∷ xs) =
    let factor = sub (sub (mul (of_nat 2) (add (of_nat i) (of_nat 1))) n) (of_nat 1) in
    gini_sum n (i + 1) (add acc (mul factor x)) xs

unfoldable pub gini_coefficient : List ValidatorInfo → F64
unfolding calculate_weight gini_sum
gini_coefficient validators =
    let stakes = sorted_asc (map (λ v. of_nat (calculate_weight v)) validators) in
    let n = of_nat (length stakes) in
    let sum = sum_up (of_nat 0) stakes in
    if is_empty validators
    then of_nat 0
    else if equal sum (of_nat 0)
    then of_nat 0
    else div (gini_sum n 0 (of_nat 0) stakes) (mul n sum)
