-- ===== src/Contracts/Gas/Meter.antt =====
-- Runs of the `GasMeter` of crates/smart-contracts/src/gas.rs.
use kainotes.Prelude.{
  ℕ, ◌+◌, ◌/◌, ◌≤◌, ◌<◌, ◌≡◌, sym, ◌⊎◌, subst, List, [], ◌∷◌, arith, min, u64_mod, inl, inr, All,
}
use kainotes.Prelude.Result.{Result, ok, err, panic}
use kainotes.Contracts.Gas
use kainotes.Contracts.Gas.{
  GasMeter, ContractError, add64, out_of_gas, consume, refund, remaining, finalize, is_out_of_gas,
}

-- One use of the meter.
pub data MeterStep : Type 0 where
  use_gas give_back : ℕ → MeterStep

-- The meter after a step; a refused `consume` leaves what it leaves.
abbrev pub step : MeterStep → GasMeter → GasMeter
step (use_gas amount) m = (consume amount m).1
step (give_back amount) m = refund amount m

abbrev pub run : List MeterStep → GasMeter → GasMeter
run [] m = m
run (s ∷ ss) m = run ss (step s m)

-- An amount counts where it was accepted.
abbrev pub charge : ℕ → Result ContractError Unit → ℕ → ℕ
charge amount (ok u) rest = amount + rest
charge amount (err e) rest = rest
charge amount panic rest = rest

-- The gas that the accepted steps of a run asked for, added up.
abbrev pub accepted : List MeterStep → GasMeter → ℕ
accepted [] m = 0
accepted (give_back amount ∷ ss) m = accepted ss (refund amount m)
accepted (use_gas amount ∷ ss) m =
    charge amount (consume amount m).0 (accepted ss (consume amount m).1)

consume-cases :
    (amount : ℕ) (m : GasMeter)
    → (consume amount m ≡ (ok tt, record m { used = add64 m.used amount }))
        × (add64 m.used amount ≤ m.limit)
      ⊎ (consume amount m ≡ (err out_of_gas, m)) × (m.limit < add64 m.used amount)
unfolding consume
consume-cases amount m = ground arith

-- The step asks for so little that the sum with any gas up to the limit is a word.
abbrev pub IsSmall : ℕ → MeterStep → Type 0
IsSmall limit (use_gas amount) = limit + amount < u64_mod
IsSmall limit (give_back amount) = Unit

run-used :
    (ss : List MeterStep) (m : GasMeter)
    → m.used ≤ m.limit
    → All (IsSmall m.limit) ss
    → ((run ss m).used ≡ m.used + accepted ss m) × ((run ss m).used ≤ m.limit)
unfolding refund
run-used [] m h a = (omega arith, h)
run-used (give_back amount ∷ ss) m h a = run-used ss (refund amount m) h a.1
run-used (use_gas amount ∷ ss) m h a =
    let Goal = λ (p : Result ContractError Unit × GasMeter).
      ((run ss p.1).used ≡ m.used + charge amount p.0 (accepted ss p.1))
      × ((run ss p.1).used ≤ m.limit) in
    elim (consume-cases amount m) [
      | inl (e, fits) ↦
          let next = record m { used = add64 m.used amount } in
          let exact : add64 m.used amount ≡ m.used + amount = omega (arith, h, a.0) in
          let rest = run-used ss next fits a.1 in
          subst Goal (sym e) (omega (arith, rest.0, exact), rest.1)
      | inr (e, over) ↦ subst Goal (sym e) (run-used ss m h a.1)
    ]

-- Over any run of a new meter whose steps ask for so little that no sum passes a 64-bit word, the
-- gas used is what the accepted steps asked for, added up, and at most the limit.
pub metered_run :
    (limit : ℕ) (ss : List MeterStep)
    → All (IsSmall limit) ss
    → ((run ss (Gas.new limit)).used ≡ accepted ss (Gas.new limit))
      × ((run ss (Gas.new limit)).used ≤ limit)
unfolding Gas.new
metered_run limit ss a =
    let r = run-used ss (Gas.new limit) (omega arith) a in (omega (arith, r.0), r.1)

-- The gas charged at the end is the gas used less the refund or less half of the gas used, whichever
-- is smaller: it is at least half of the gas used and at most all of it.
finalize_lem :
    (m : GasMeter)
    → (m.used ≤ finalize m + finalize m)
      × (finalize m ≤ m.used)
      × (finalize m + min m.refunded (m.used / 2) ≡ m.used)
unfolding finalize
finalize_lem m = (omega arith, omega arith, omega arith)
