-- ===== src/Consensus/Selection/Turns.antt =====
-- How long a validator waits for its slot in crates/consensus/src/selection.rs.
use kainotes.Prelude.{
  ℕ, ◌+◌, ◌-◌, ◌%◌, ◌≤◌, ◌<◌, ◌≡◌, sym, ap, ◌∙◌, List, [], ◌∷◌, ◌++◌, arith, ltb, sum_of,
  sum_of-append, u64_mod, Bool-cases, inl, inr,
}
use native.Mathlib.Nat.{mod-eq_of_lt, mod-lt, mod-add-mod, mod-eq-sub-mod}
use kainotes.Prelude.Result.{ok}
use kainotes.Consensus.Validator.{ValidatorInfo}
use kainotes.Consensus.Selection.{
  SelectionWeight, calculate_weight, calculate_weights, weight_of, select_for_slot,
}
use kainotes.Consensus.Selection.Slots.{select_for_slot_share}

mod-sum : (m r : ℕ) → r < m → (m + r) % m ≡ r
mod-sum m r h =
    let less_one : (m + r) % m ≡ (m + r - m) % m = mod-eq-sub-mod (omega arith) in
    let rest : m + r - m ≡ r = omega arith in less_one ∙ ap (λ x. x % m) rest ∙ mod-eq_of_lt h

-- Among any m numbers in a row one has a given remainder below m.
meets : (n m r : ℕ) → r < m → (s : ℕ) × (n ≤ s) × (s < n + m) × (s % m ≡ r)
meets n m r h = elim (Bool-cases (ltb r (n % m))) [
  | inl low ↦
      let below : n % m < m = mod-lt n (omega (arith, h)) in
      let under : r < n % m = ground (arith, low) in
      let k = m - n % m + r in
      let whole : n % m + k ≡ m + r = omega (arith, below) in
      (
        n + k,
        omega arith,
        omega (arith, below, under),
        sym (mod-add-mod n m k) ∙ ap (λ x. x % m) whole ∙ mod-sum m r h,
      )
  | inr high ↦
      let over : n % m ≤ r = ground (arith, high) in
      let k = r - n % m in
      let whole : n % m + k ≡ r = omega (arith, over) in
      (
        n + k,
        omega arith,
        omega (arith, over, h),
        sym (mod-add-mod n m k) ∙ ap (λ x. x % m) whole ∙ mod-eq_of_lt h,
      )
]

abbrev weighed : ValidatorInfo → SelectionWeight
weighed v = record { address = v.address; weight = calculate_weight v }

calculate_weights-append :
    (before : List ValidatorInfo) (v : ValidatorInfo) (after : List ValidatorInfo)
    → 0 < calculate_weight v
    → calculate_weights (before ++ (v ∷ after))
      ≡ calculate_weights before ++ (weighed v ∷ calculate_weights after)
unfolding calculate_weights
calculate_weights-append [] v after h = ground (arith, h)
calculate_weights-append (x ∷ before) v after h =
    ground (arith, calculate_weights-append before v after h)

-- When the weights add up to less than 2^64, a validator with a weight that is not zero, wherever it
-- stands among the validators, is chosen for one of any as many slots in a row as the weights add up
-- to.
pub every_validator_is_chosen :
    (before : List ValidatorInfo) (v : ValidatorInfo) (after : List ValidatorInfo) (start : ℕ)
    → 0 < calculate_weight v
    → sum_of weight_of (calculate_weights (before ++ (v ∷ after))) < u64_mod
    → (slot : ℕ) × (start ≤ slot)
      × (slot < start + sum_of weight_of (calculate_weights (before ++ (v ∷ after))))
      × (select_for_slot (before ++ (v ∷ after)) slot ≡ ok v.address)
every_validator_is_chosen before v after start h b =
    let pre = calculate_weights before in
    let post = calculate_weights after in
    let whole = calculate_weights-append before v after h in
    let total = sum_of weight_of (pre ++ (weighed v ∷ post)) in
    let same : sum_of weight_of (calculate_weights (before ++ (v ∷ after))) ≡ total =
      ap (sum_of weight_of) whole in
    let parts = sum_of-append weight_of pre (weighed v ∷ post) in
    let (slot, low, high, meeting) =
      meets start total (sum_of weight_of pre) (omega (arith, parts, h)) in
    (
      slot,
      low,
      omega (arith, high, same),
      select_for_slot_share (before ++ (v ∷ after)) slot pre (weighed v) post whole
          (omega (arith, same, b)) (omega (arith, meeting)) (omega (arith, meeting, h)),
    )
