-- ===== src/Contracts/Gas/Tests.antt =====
-- Runs of the prices and the meter, and their theorems at concrete values.
use kainotes.Prelude.{◌≡◌, ◌≤◌, refl, [], ◌∷◌, arith, List, false}
use kainotes.Contracts.Gas
use kainotes.Contracts.Gas.{
  GasMeter, mainnet, calculate_memory_gas, consume, out_of_gas, refund, finalize, is_out_of_gas,
}
use kainotes.Contracts.Gas.Meter.{MeterStep, use_gas, give_back, run, accepted, metered_run}

-- The second use is refused.
abbrev uses : List MeterStep
uses = use_gas 21000 ∷ use_gas 90000 ∷ give_back 5000 ∷ use_gas 3000 ∷ []

metered_run_example :
    ((run uses (Gas.new 100000)).used ≡ accepted uses (Gas.new 100000))
    × ((run uses (Gas.new 100000)).used ≤ 100000)
metered_run_example = metered_run 100000 uses (omega arith, (omega arith, (tt, (omega arith, tt))))

two_uses_count : accepted uses (Gas.new 100000) ≡ 24000
unfolding consume refund Gas.new
two_uses_count = refl

refused_use_is_not_out_of_gas : is_out_of_gas (consume 15000 (Gas.new 10000)).1 ≡ false
unfolding consume is_out_of_gas Gas.new
refused_use_is_not_out_of_gas = refl

abbrev spent : GasMeter
spent = record { limit = 100000; used = 21000; refunded = 30000 }
