-- ===== src/Consensus/Selection/Committee.antt =====
-- Who sits in a committee chosen by crates/consensus/src/selection.rs.
use kainotes.Prelude.{
  ℕ, zero, suc, ◌-◌, ◌≤◌, ◌≡◌, refl, sym, ◌∙◌, none, some, List, [], ◌∷◌, arith, ◌==◌,
  if◌then◌else◌, min, length, Option-cases, inl, inr,
}
use kainotes.Prelude.Result.{ok}
use kainotes.Prelude.Result.Exec.{bind-eq-ok, pure, ◌>>=◌}
use kainotes.Core.Types.{Address}
use kainotes.Consensus.Validator.{ValidatorInfo}
use kainotes.Consensus.Validator.Registry.{occurrences}
use kainotes.Consensus.Selection.{
  SelectionWeight, calculate_weights, total_weight, take_off, select_validator, draw, or_first,
  pick, select_committee, without_address,
}

-- Whether some validator has an address, as a number.
abbrev pub present : Address → List ValidatorInfo → ℕ
present k [] = 0
present k (v ∷ vs) = if v.address == k then 1 else present k vs

abbrev weighed : Address → List SelectionWeight → ℕ
weighed k [] = 0
weighed k (w ∷ ws) = if w.address == k then 1 else weighed k ws

present-le : (k : Address) (vs : List ValidatorInfo) → present k vs ≤ 1
present-le k [] = omega arith
present-le k (v ∷ vs) = ground (arith, present-le k vs)

weighed-le :
    (k : Address) (vs : List ValidatorInfo) → weighed k (calculate_weights vs) ≤ present k vs
unfolding calculate_weights
weighed-le k [] = omega arith
weighed-le k (v ∷ vs) = ground (arith, weighed-le k vs, present-le k vs)

take_off-weighed :
    (n : ℕ) (a : Address) (ws : List SelectionWeight) → take_off n ws ≡ some a → weighed a ws ≡ 1
unfolding take_off
take_off-weighed n a [] h = cc
take_off-weighed n a (w ∷ ws) h = ground (arith, h, take_off-weighed (n - w.weight) a ws)

or_first-weighed :
    (n : ℕ) (a : Address) (ws : List SelectionWeight)
    → or_first (take_off n ws) ws ≡ ok a
    → weighed a ws ≡ 1
or_first-weighed n a ws h = elim (Option-cases (take_off n ws)) [
  | inl out ↦ first ws (sym (rw out refl) ∙ h)
  | inr (b, found) ↦ take_off-weighed n a ws (found ∙ ground (arith, found, h))
]
  where
    first : (ws : List SelectionWeight) → or_first none ws ≡ ok a → weighed a ws ≡ 1
    first [] h = cc
    first (w ∷ ws) h = ground (arith, h)

module _ {Rng : Type 0} (gen_range : ℕ → Rng → ℕ × Rng) where
  select_validator-present :
      (vs : List ValidatorInfo) (a : Address) (rng next : Rng)
      → select_validator gen_range vs rng ≡ (ok a, next)
      → present a vs ≡ 1
  unfolding select_validator draw
  select_validator-present vs a rng next h =
      let ws = calculate_weights vs in
      let n = (gen_range (total_weight ws) rng).0 in
      ground (arith, h, or_first-weighed n a ws, weighed-le a vs, present-le a vs)

  present-without :
      (k a : Address) (vs : List ValidatorInfo)
      → present k (without_address gen_range a vs) ≡ (if a == k then 0 else present k vs)
  present-without k a [] = ground arith
  present-without k a (v ∷ vs) = ground (arith, present-without k a vs)

  pick-occurrences :
      (count : ℕ) (vs : List ValidatorInfo) (chosen : List Address) (rng next : Rng) (k : Address)
      → pick gen_range count vs rng ≡ (ok chosen, next)
      → (occurrences k chosen ≤ present k vs) × (length chosen ≤ count)
  unfolding pick
  pick-occurrences zero vs chosen rng next k h = ground (arith, h)
  pick-occurrences (suc count) [] chosen rng next k h = ground (arith, h)
  pick-occurrences (suc count) (v ∷ vs) chosen rng next k h =
      let (a, r1, first, later) =
        bind-eq-ok (select_validator gen_range (v ∷ vs))
          (λ a.
            pick gen_range count (without_address gen_range a (v ∷ vs)) >>= λ rest. pure (a ∷ rest))
          rng next chosen h in
      let (rest, r2, picked, end) =
        bind-eq-ok (pick gen_range count (without_address gen_range a (v ∷ vs)))
          (λ rest. pure (a ∷ rest)) r1 next chosen later in
      let there = select_validator-present (v ∷ vs) a rng r1 first in
      let others =
        pick-occurrences count (without_address gen_range a (v ∷ vs)) rest r1 r2 k picked in
      ground (arith, end, there, others, present-without k a (v ∷ vs), present-le k (v ∷ vs))

  -- In a committee that is chosen, no address occurs more than once, every address is one of the
  -- validators', and there are at most as many as asked for.
  pub committee_distinct :
      (validators : List ValidatorInfo) (count : ℕ) (chosen : List Address) (rng next : Rng)
      (k : Address)
      → select_committee gen_range validators count rng ≡ (ok chosen, next)
      → (occurrences k chosen ≤ present k validators)
        × (present k validators ≤ 1)
        × (length chosen ≤ count)
  unfolding select_committee
  committee_distinct validators count chosen rng next k h = ground (
    arith,
    h,
    pick-occurrences (min count (length validators)) validators chosen rng next k,
    present-le k validators,
  )
