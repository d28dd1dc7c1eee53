-- ===== src/Consensus/Slashing/Accounts.antt =====
-- The accounts that crates/consensus/src/slashing.rs keeps of what it takes.
use kainotes.Prelude.{
  ℕ, ◌+◌, ◌*◌, ◌/◌, ◌%◌, ◌≤◌, ◌≡◌, refl, Option, none, List, [], ◌∷◌, ◌++◌, arith, ◌==◌,
  if◌then◌else◌, sum_of, sum_of-append, u32_mod, Option-cases, inl, inr,
}
use kainotes.Prelude.Result.{ok, unwrap_or}
use kainotes.Dict.{lookup}
use kainotes.Dict.Laws.{lookup-insert}
use kainotes.Core.Types.{Address, Amount, Hash}
use kainotes.Consensus.Validator.{ValidatorInfo}
use kainotes.Consensus.Slashing.{
  SlashingManager, SlashingCondition, SlashingPenalty, new_slashing, slash_validator,
  calculate_slash_amount, get_offense_count, from_slashed_amount, check_downtime_slashing, downtime,
  withdraw_insurance,
}

slash_amount-le :
    (v : ValidatorInfo) (c : SlashingCondition) (m : SlashingManager)
    → calculate_slash_amount v c m ≤ v.stake
unfolding calculate_slash_amount
slash_amount-le v c m = ground arith

-- The penalty of a slashing.
abbrev pub penalty_of :
    ℕ → SlashingCondition → Option Hash → SlashingManager → ValidatorInfo → SlashingPenalty
penalty_of now c evidence m v = record {
  validator = v.address;
  condition = c;
  amount = calculate_slash_amount v c m;
  timestamp = now;
  previous_offenses = get_offense_count v.address m;
  evidence_hash = evidence;
}

-- A slashing never fails: it takes from the stake what it reports, adds that to the total, half of it
-- to what is burned and three tenths to the insurance, each rounded down, and puts the penalty at the
-- end of the history.
pub slash_validator_exact :
    (now : ℕ) (c : SlashingCondition) (evidence : Option Hash) (m : SlashingManager)
    (v : ValidatorInfo)
    → let (r, (n, w)) = slash_validator now c evidence (m, v) in
      let p = penalty_of now c evidence m v in
      (r ≡ ok p)
      × (w.stake + p.amount ≡ v.stake)
      × (n.total_slashed ≡ m.total_slashed + p.amount)
      × (n.total_burned ≡ m.total_burned + p.amount / 2)
      × (n.insurance_fund ≡ m.insurance_fund + (p.amount * 3) / 10)
      × (n.slashing_history ≡ m.slashing_history ++ (p ∷ []))
unfolding slash_validator get_offense_count from_slashed_amount
slash_validator_exact now c evidence m v = ground (arith, slash_amount-le v c m)

abbrev pub amount_of : SlashingPenalty → Amount
amount_of p = p.amount

-- The number of penalties of one validator.
abbrev pub penalties_of : Address → List SlashingPenalty → ℕ
penalties_of k ps = sum_of (λ (p : SlashingPenalty). if p.validator == k then 1 else 0) ps

pub record IsSound (m : SlashingManager) : Type 0 where
  pub slashed : m.total_slashed ≡ sum_of amount_of m.slashing_history
  pub burned : 2 * m.total_burned ≤ m.total_slashed
  pub insured : 10 * m.insurance_fund ≤ 3 * m.total_slashed
  pub counted : (k : Address) → get_offense_count k m ≡ penalties_of k m.slashing_history % u32_mod

slash-counts :
    (now : ℕ) (c : SlashingCondition) (evidence : Option Hash) (m : SlashingManager)
    (v : ValidatorInfo) (k : Address)
    → get_offense_count k (slash_validator now c evidence (m, v)).1.0
      ≡ (if v.address == k then (get_offense_count k m + 1) % u32_mod else get_offense_count k m)
unfolding slash_validator get_offense_count from_slashed_amount
slash-counts now c evidence m v k = ground (
  arith,
  slash_amount-le v c m,
  lookup-insert k v.address ((unwrap_or 0 (lookup v.address m.offense_count) + 1) % u32_mod)
      m.offense_count,
)

pub slash_validator-IsSound :
    (now : ℕ) (c : SlashingCondition) (evidence : Option Hash) (m : SlashingManager)
    (v : ValidatorInfo)
    → IsSound m
    → IsSound (slash_validator now c evidence (m, v)).1.0
slash_validator-IsSound now c evidence m v s =
    let e = slash_validator_exact now c evidence m v in
    let p = penalty_of now c evidence m v in
    record {
      slashed =
          rw e.5
            (omega (arith, e.2, s.slashed, sum_of-append amount_of m.slashing_history (p ∷ [])));
      burned = omega (arith, e.2, e.3, s.burned);
      insured = omega (arith, e.2, e.4, s.insured);
      counted = λ k. rw e.5 (
          ground (
            arith,
            slash-counts now c evidence m v k,
            s.counted k,
            sum_of-append (λ (q : SlashingPenalty). if q.validator == k then 1 else 0)
                m.slashing_history (p ∷ []),
          ));
    }

check_downtime_slashing-IsSound :
    (now max_blocks : ℕ) (m : SlashingManager) (v : ValidatorInfo)
    → IsSound m
    → IsSound (check_downtime_slashing now max_blocks (m, v)).1.0
unfolding check_downtime_slashing
check_downtime_slashing-IsSound now max_blocks m v s = elim (Option-cases (downtime max_blocks v)) [
  | inl fine ↦ rw (fine, check_downtime_slashing) s
  | inr (c, down) ↦
      let e = slash_validator_exact now c none m v in
      rw (down, check_downtime_slashing, e.0) (slash_validator-IsSound now c none m v s)
]

withdraw_insurance-IsSound :
    (amount : Amount) (m : SlashingManager) → IsSound m → IsSound (withdraw_insurance amount m).1
unfolding withdraw_insurance get_offense_count
withdraw_insurance-IsSound amount m s = record {
  slashed = ground (arith, s.slashed);
  burned = ground (arith, s.burned);
  insured = ground (arith, s.insured);
  counted = λ k. ground (arith, s.counted k);
}

-- The calls of the manager; the validators are the ones that the calls are given.
pub data SlashingCall : Type 0 where
  slashes : ℕ → SlashingCondition → Option Hash → ValidatorInfo → SlashingCall
  checks : ℕ → ℕ → ValidatorInfo → SlashingCall
  withdraws : Amount → SlashingCall

abbrev pub call : SlashingCall → SlashingManager → SlashingManager
call (slashes now c evidence v) m = (slash_validator now c evidence (m, v)).1.0
call (checks now max_blocks v) m = (check_downtime_slashing now max_blocks (m, v)).1.0
call (withdraws amount) m = (withdraw_insurance amount m).1

abbrev pub calls : List SlashingCall → SlashingManager → SlashingManager
calls [] m = m
calls (c ∷ cs) m = calls cs (call c m)

calls-IsSound : (cs : List SlashingCall) (m : SlashingManager) → IsSound m → IsSound (calls cs m)
calls-IsSound [] m s = s
calls-IsSound (slashes now c evidence v ∷ cs) m s =
    calls-IsSound cs _ (slash_validator-IsSound now c evidence m v s)
calls-IsSound (checks now max_blocks v ∷ cs) m s =
    calls-IsSound cs _ (check_downtime_slashing-IsSound now max_blocks m v s)
calls-IsSound (withdraws amount ∷ cs) m s =
    calls-IsSound cs _ (withdraw_insurance-IsSound amount m s)

new_slashing-IsSound : IsSound new_slashing
unfolding new_slashing get_offense_count lookup
new_slashing-IsSound = record {
  slashed = refl;
  burned = omega arith;
  insured = omega arith;
  counted = λ k. refl;
}

-- After any calls of a new manager, the total slashed is the sum of the penalties of the history, at
-- most half of it was burned, at most three tenths of it are in the insurance fund, and each
-- validator's offense count is the number of its penalties, in 32 bits.
pub slashing_accounts :
    (cs : List SlashingCall) (k : Address)
    → let m = calls cs new_slashing in
      (m.total_slashed ≡ sum_of amount_of m.slashing_history)
      × (2 * m.total_burned ≤ m.total_slashed)
      × (10 * m.insurance_fund ≤ 3 * m.total_slashed)
      × (get_offense_count k m ≡ penalties_of k m.slashing_history % u32_mod)
slashing_accounts cs k =
    let s = calls-IsSound cs new_slashing new_slashing-IsSound in
    (s.slashed, s.burned, s.insured, s.counted k)
