-- ===== src/Consensus/Selection/Slots.antt =====
-- Which slots, and which numbers drawn, choose a validator in crates/consensus/src/selection.rs.
use kainotes.Prelude.{
  ℕ, ◌+◌, ◌-◌, ◌%◌, ◌≤◌, ◌<◌, ◌≡◌, refl, ap, ◌∙◌, false, some, List, [], ◌∷◌, ◌++◌, arith, ltb,
  ◌==◌, sum_of, sum_of-append, u64_mod, Bool-cases, inl, inr, subst,
}
use native.Mathlib.Nat.{mod-eq_of_lt}
use kainotes.Prelude.Result.{ok}
use kainotes.Core.Transaction.{is_empty}
use kainotes.Consensus.Validator.{ValidatorInfo}
use kainotes.Consensus.Selection.{
  SelectionWeight, calculate_weights, weight_of, total_weight, add_up, take_off, select_for_slot,
  select_validator, draw, or_first,
}

-- The weight in whose part of the sum the number lies.
add_up_found :
    (selection acc : ℕ) (pre : List SelectionWeight) (w : SelectionWeight)
    (post : List SelectionWeight)
    → acc + sum_of weight_of (pre ++ (w ∷ post)) < u64_mod
    → acc + sum_of weight_of pre ≤ selection
    → selection < acc + sum_of weight_of pre + w.weight
    → add_up selection acc (pre ++ (w ∷ post)) ≡ some w.address
unfolding add_up
add_up_found selection acc [] w post b low high = ground arith
add_up_found selection acc (x ∷ pre) w post b low high =
    ground (arith, add_up_found selection (acc + x.weight) pre w post)

is_empty-append :
    (pre : List SelectionWeight) (w : SelectionWeight) (post : List SelectionWeight)
    → is_empty (pre ++ (w ∷ post)) ≡ false
is_empty-append [] w post = refl
is_empty-append (x ∷ pre) w post = refl

weights_is_empty :
    (validators : List ValidatorInfo)
    → is_empty (calculate_weights validators) ≡ false
    → is_empty validators ≡ false
unfolding calculate_weights
weights_is_empty [] h = h
weights_is_empty (v ∷ vs) h = refl

sum_small :
    (ws : List SelectionWeight)
    → sum_of weight_of ws < u64_mod
    → total_weight ws ≡ sum_of weight_of ws
sum_small ws h = omega arith

-- What the choice for a slot comes to when there is some weight.
select_for_slot_lem :
    (validators : List ValidatorInfo) (slot : ℕ)
    → is_empty (calculate_weights validators) ≡ false
    → sum_of weight_of (calculate_weights validators) < u64_mod
    → 0 < sum_of weight_of (calculate_weights validators)
    → let ws = calculate_weights validators in
      select_for_slot validators slot ≡ or_first (add_up (slot % sum_of weight_of ws) 0 ws) ws
unfolding select_for_slot
select_for_slot_lem validators slot full b pos =
    let ws = calculate_weights validators in
    let some_left : (total_weight ws == 0) ≡ false = ground (arith, b, pos) in
    rw (weights_is_empty validators full, full, some_left, sum_small ws b, select_for_slot) refl

-- When the weights add up to less than 2^64, the validator of a weight is chosen for exactly the
-- slots that fall, modulo the sum, in the part of the sum that the weight takes up after the weights
-- before it.
pub select_for_slot_share :
    (validators : List ValidatorInfo) (slot : ℕ) (pre : List SelectionWeight) (w : SelectionWeight)
    (post : List SelectionWeight)
    → calculate_weights validators ≡ pre ++ (w ∷ post)
    → sum_of weight_of (pre ++ (w ∷ post)) < u64_mod
    → sum_of weight_of pre ≤ slot % sum_of weight_of (pre ++ (w ∷ post))
    → slot % sum_of weight_of (pre ++ (w ∷ post)) < sum_of weight_of pre + w.weight
    → select_for_slot validators slot ≡ ok w.address
select_for_slot_share validators slot pre w post e b low high =
    let total = sum_of weight_of (pre ++ (w ∷ post)) in
    let m = sum_of-append weight_of pre (w ∷ post) in
    let pos : 0 < total = omega (arith, m, high) in
    let found =
      add_up_found (slot % total) 0 pre w post (omega (arith, b)) (omega (arith, low))
        (omega (arith, high)) in
    let s =
      select_for_slot_lem validators slot (rw e (is_empty-append pre w post)) (rw e b) (rw e pos) in
    s ∙ rw (e, found) refl

take_off-add_up :
    (selection acc : ℕ) (ws : List SelectionWeight)
    → acc + sum_of weight_of ws < u64_mod
    → add_up (acc + selection) acc ws ≡ take_off selection ws
unfolding add_up take_off
take_off-add_up selection acc [] b = refl
take_off-add_up selection acc (w ∷ ws) b = elim (Bool-cases (ltb selection w.weight)) [
  | inl here ↦ ground (arith, here, b)
  | inr later ↦ ground (
    arith,
    later,
    b,
    ap (λ n. add_up n (acc + w.weight) ws) (moved later),
    take_off-add_up (selection - w.weight) (acc + w.weight) ws,
  )
]
  where
    moved :
        ltb selection w.weight ≡ false → acc + selection ≡ acc + w.weight + (selection - w.weight)
    moved h = ground (arith, h)

-- When the weights add up to more than zero and less than 2^64, a draw below their sum chooses the
-- validator that the slot of the drawn number chooses.
select_validator-select_for_slot :
    {Rng : Type 0} (gen_range : ℕ → Rng → ℕ × Rng) (validators : List ValidatorInfo) (rng : Rng)
    → 0 < sum_of weight_of (calculate_weights validators)
    → sum_of weight_of (calculate_weights validators) < u64_mod
    → (gen_range (sum_of weight_of (calculate_weights validators)) rng).0
      < sum_of weight_of (calculate_weights validators)
    → (select_validator gen_range validators rng).0
      ≡ select_for_slot validators
          (gen_range (sum_of weight_of (calculate_weights validators)) rng).0
unfolding select_validator draw
select_validator-select_for_slot gen_range validators rng pos b drawn =
    let ws = calculate_weights validators in
    let n = (gen_range (sum_of weight_of ws) rng).0 in
    let full : is_empty ws ≡ false = not_empty ws pos in
    let some_left : (total_weight ws == 0) ≡ false = ground (arith, b, pos) in
    let small : n % sum_of weight_of ws ≡ n = mod-eq_of_lt drawn in
    let same : add_up n 0 ws ≡ take_off n ws =
      subst (λ i. add_up i 0 ws ≡ take_off n ws) (omega arith)
        (take_off-add_up n 0 ws (omega (arith, b))) in
    rw
      (
        select_for_slot_lem validators n full b pos,
        small,
        same,
        weights_is_empty validators full,
        full,
        some_left,
        sum_small ws b,
        select_validator,
      )
      refl
  where
    not_empty : (ws : List SelectionWeight) → 0 < sum_of weight_of ws → is_empty ws ≡ false
    not_empty [] h = ground (arith, h)
    not_empty (w ∷ ws) h = refl
