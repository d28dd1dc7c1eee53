-- ===== src/Consensus/Validator/Registry.antt =====
-- What the operations on the set of crates/consensus/src/validator.rs do to its validators.
use kainotes.Prelude.{
  ℕ, ◌+◌, ◌≤◌, ◌≡◌, ◌⊎◌, inl, inr, refl, true, false, ltb, leb, min, Bool-cases, Option, none, some,
  List, [], ◌∷◌, arith, ◌==◌, if◌then◌else◌, sum_of,
}
use kainotes.Prelude.Result.{ok}
use kainotes.Dict.{Dict, lookup, insert, remove, contains, IsDistinct}
use kainotes.Dict.Laws.{remove_absent, lookup-insert}
use kainotes.Dict.Sums.{total, total-insert}
use kainotes.Core.Types.{Address, Amount}
use kainotes.Consensus.Validator.{
  ValidatorInfo, ValidatorStatus, ValidatorSet, active, slashed, unbonding, exited, inactive,
  is_due, release_all, process_unbonding, register, unregister, new_validator, total_stake,
  get_validator,
}

-- The validator is unbonding, and its unlock time is not after the time.
abbrev pub IsUnlocked : ℕ → ValidatorInfo → Type 0
IsUnlocked t v = (u : ℕ) × (v.status ≡ unbonding u) × (u ≤ t)

-- What the end of the unbondings at a time makes of an address: `v` is what is found there before
-- it, `w` what is found after it, and `n` how often the address is reported.
abbrev pub IsReleased : ℕ → Option ValidatorInfo → Option ValidatorInfo → ℕ → Type 0
IsReleased t none w n = (w ≡ none) × (n ≡ 0)
IsReleased t (some v) w n =
    (IsUnlocked t v × (w ≡ some (record v { status = inactive })) × (n ≡ 1))
    ⊎ ((IsUnlocked t v → ⊥) × (w ≡ some v) × (n ≡ 0))

-- What the code makes of an entry.
abbrev released : ℕ → Option ValidatorInfo → Option ValidatorInfo
released t none = none
released t (some v) = some (if is_due t v.status then record v { status = inactive } else v)

abbrev due_in : ℕ → Option ValidatorInfo → ℕ
due_in t none = 0
due_in t (some v) = if is_due t v.status then 1 else 0

-- What is due is what is unlocked.
due_cases :
    (t : ℕ) (v : ValidatorInfo)
    → ((is_due t v.status ≡ true) × IsUnlocked t v)
      ⊎ ((is_due t v.status ≡ false) × (IsUnlocked t v → ⊥))
due_cases t v = split v.status
  where
    split :
        (s : ValidatorStatus)
        → ((is_due t s ≡ true) × ((u : ℕ) × (s ≡ unbonding u) × (u ≤ t)))
          ⊎ ((is_due t s ≡ false) × (((u : ℕ) × (s ≡ unbonding u) × (u ≤ t)) → ⊥))
    split (unbonding u) = elim (Bool-cases (leb u t)) [
      | inl reached ↦ inl (reached, (u, refl, ground (arith, reached)))
      | inr ahead ↦ inr (ahead, λ (n, same, low). ground (arith, ahead, same, low))
    ]
    split active = inr (refl, λ (n, same, low). ground (arith, same))
    split inactive = inr (refl, λ (n, same, low). ground (arith, same))
    split slashed = inr (refl, λ (n, same, low). ground (arith, same))
    split exited = inr (refl, λ (n, same, low). ground (arith, same))

released-IsReleased :
    (t : ℕ) (found : Option ValidatorInfo) → IsReleased t found (released t found) (due_in t found)
released-IsReleased t none = (refl, refl)
released-IsReleased t (some v) = elim (due_cases t v) [
  | inl (due, unlocked) ↦ inl (unlocked, rw due refl, rw due refl)
  | inr (early, locked) ↦ inr (locked, rw early refl, rw early refl)
]

-- How often an address is listed.
abbrev pub occurrences : Address → List Address → ℕ
occurrences k ks = sum_of (λ (j : Address). if j == k then 1 else 0) ks

release_all-lookup :
    (t : ℕ) (k : Address) (d : Dict ValidatorInfo)
    → lookup k (release_all t d).1 ≡ released t (lookup k d)
unfolding release_all lookup
release_all-lookup t k [] = refl
release_all-lookup t k ((j, v) ∷ d) = ground (arith, release_all-lookup t k d)

release_all-occurrences :
    (t : ℕ) (k : Address) (d : Dict ValidatorInfo)
    → IsDistinct d
    → occurrences k (release_all t d).0 ≡ due_in t (lookup k d)
unfolding release_all lookup
release_all-occurrences t k [] h = refl
release_all-occurrences t k ((j, v) ∷ d) h = ground (arith, release_all-occurrences t k d h.1)

abbrev pub stake_of : ValidatorInfo → Amount
stake_of v = v.stake

pub release_all-stake :
    (t : ℕ) (d : Dict ValidatorInfo) → total stake_of (release_all t d).1 ≡ total stake_of d
unfolding release_all
release_all-stake t [] = refl
release_all-stake t ((j, v) ∷ d) = ground (arith, release_all-stake t d)

-- In a set without an address listed twice, the end of the unbondings makes inactive exactly the
-- validators whose unlock time has come, changes nothing else, reports each of them once and nobody
-- else, and leaves the total stake.
pub process_unbonding_exact :
    (t : ℕ) (k : Address) (s : ValidatorSet)
    → IsDistinct s.validators
    → let (completed, q) = process_unbonding t s in
      IsReleased t (get_validator k s) (get_validator k q) (occurrences k completed)
      × (total_stake q ≡ total_stake s)
      × (q.min_stake ≡ s.min_stake)
      × (q.unbonding_period ≡ s.unbonding_period)
unfolding process_unbonding get_validator total_stake
process_unbonding_exact t k s h = (
  rw (release_all-lookup t k s.validators, release_all-occurrences t k s.validators h)
      (released-IsReleased t (lookup k s.validators)),
  release_all-stake t s.validators,
  refl,
  refl,
)

remove-insert_new :
    (k : Address) (v : ValidatorInfo) (d : Dict ValidatorInfo)
    → lookup k d ≡ none
    → remove k (insert k v d) ≡ d
unfolding remove insert lookup
remove-insert_new k v [] h = ground arith
remove-insert_new k v ((j, w) ∷ d) h = ground (arith, remove-insert_new k v d, remove_absent k d)

-- The entry of a validator that has just registered.
abbrev pub registered : ℕ → Address → Amount → ℕ → ValidatorInfo
registered now k stake rate = record {
  address = k;
  stake = stake;
  liquidity_deployed = 0;
  utility_score = 0;
  status = active;
  uptime = 10000;
  blocks_produced = 0;
  blocks_missed = 0;
  registered_at = now;
  last_active = now;
  commission_rate = if ltb 10000 rate then 10000 else rate;
}

registered_lem :
    (now : ℕ) (k : Address) (stake : Amount) (rate : ℕ)
    → new_validator now k stake rate ≡ registered now k stake rate
unfolding new_validator
registered_lem now k stake rate =
    let cap : min rate 10000 ≡ (if ltb 10000 rate then 10000 else rate) = ground arith in
    rw cap refl

-- A registration that returns adds its stake to the total, makes the validator active with the
-- commission capped at 10000, and leaves the others; unregistering the validator then gives back the
-- set as it was before, and the validator as exited.
pub unregister-register :
    (now : ℕ) (k j : Address) (stake : Amount) (rate : ℕ) (s t : ValidatorSet)
    → register now k stake rate s ≡ (ok tt, t)
    → (s.min_stake ≤ stake)
      × (total_stake t ≡ total_stake s + stake)
      × (get_validator j t
          ≡ (if k == j then some (registered now k stake rate) else get_validator j s))
      × (unregister k t ≡ (ok (record (registered now k stake rate) { status = exited }), s))
unfolding register unregister total_stake get_validator contains
unregister-register now k j stake rate s t h =
    let v = new_validator now k stake rate in
    ground (
      arith,
      h,
      registered_lem now k stake rate,
      total-insert stake_of k v s.validators,
      lookup-insert j k v s.validators,
      lookup-insert k k v s.validators,
      remove-insert_new k v s.validators,
    )
