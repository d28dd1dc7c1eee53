-- ===== src/Tokenomics/Burning/Totals.antt =====
-- The totals of crates/tokenomics/src/burning.rs against its history.
use kainotes.Prelude.{
  ℕ, ◌+◌, ◌≡◌, refl, Bool, true, false, List, [], ◌∷◌, ◌++◌, arith, sum_of, sum_of-append, not,
  if◌then◌else◌,
}
use kainotes.Prelude.Result.{Result, ok, err, panic}
use kainotes.Prelude.Result.Exec.{continue, pure, ◌>>◌}
use kainotes.Prelude.Float.{F64}
use kainotes.Prelude.Float.Ops.{at_most}
use kainotes.Tokenomics.Error.{TokenomicsError}
use kainotes.Core.Types.{Address, Amount}
use kainotes.Core.Transaction.{Transaction}
use kainotes.Core.Host.{Host}
use kainotes.Core.Block.{transaction_hash}
use kainotes.Tokenomics.Burning.{
  BurnConfig, BurnRecord, BurningMechanism, transaction_fee, excess_utility, slashing, buy_back,
  new_burning, burn_fees, fee_burn, add_fees, excess_amount, burn_excess, push_record,
  burn_transaction_fees, burn_excess_utility, burn_slashed, buyback_and_burn, update_config,
}

-- The amount of a record, in all and by cause.
abbrev pub burned : BurnRecord → Amount
burned r = elim r.burn_type [
  | transaction_fee hash amount ↦ amount
  | excess_utility index amount ↦ amount
  | slashing validator amount ↦ amount
  | buy_back amount ↦ amount
]

abbrev pub fees : BurnRecord → Amount
fees r = elim r.burn_type [
  | transaction_fee hash amount ↦ amount
  | excess_utility index amount ↦ 0
  | slashing validator amount ↦ 0
  | buy_back amount ↦ 0
]

abbrev pub excess : BurnRecord → Amount
excess r = elim r.burn_type [
  | transaction_fee hash amount ↦ 0
  | excess_utility index amount ↦ amount
  | slashing validator amount ↦ 0
  | buy_back amount ↦ 0
]

abbrev pub slashed : BurnRecord → Amount
slashed r = elim r.burn_type [
  | transaction_fee hash amount ↦ 0
  | excess_utility index amount ↦ 0
  | slashing validator amount ↦ amount
  | buy_back amount ↦ 0
]

abbrev pub bought : BurnRecord → Amount
bought r = elim r.burn_type [
  | transaction_fee hash amount ↦ 0
  | excess_utility index amount ↦ 0
  | slashing validator amount ↦ 0
  | buy_back amount ↦ amount
]

-- The five totals are the sums over the history.
pub record IsSound (b : BurningMechanism) : Type 0 where
  pub all : b.total_burned ≡ sum_of burned b.history
  pub by_fees : b.fee_burns ≡ sum_of fees b.history
  pub by_excess : b.excess_burns ≡ sum_of excess b.history
  pub by_slashing : b.slashing_burns ≡ sum_of slashed b.history
  pub by_buyback : b.buyback_burns ≡ sum_of bought b.history

-- A burn whose history grows by one record and whose totals grow by what the record counts.
grown-IsSound :
    (b c : BurningMechanism) (r : BurnRecord)
    → IsSound b
    → c.history ≡ b.history ++ (r ∷ [])
    → c.total_burned ≡ b.total_burned + burned r
    → c.fee_burns ≡ b.fee_burns + fees r
    → c.excess_burns ≡ b.excess_burns + excess r
    → c.slashing_burns ≡ b.slashing_burns + slashed r
    → c.buyback_burns ≡ b.buyback_burns + bought r
    → IsSound c
grown-IsSound b c r s h t f e l y = record {
  all = rw h (omega (arith, t, s.all, sum_of-append burned b.history (r ∷ [])));
  by_fees = rw h (omega (arith, f, s.by_fees, sum_of-append fees b.history (r ∷ [])));
  by_excess = rw h (omega (arith, e, s.by_excess, sum_of-append excess b.history (r ∷ [])));
  by_slashing = rw h (omega (arith, l, s.by_slashing, sum_of-append slashed b.history (r ∷ [])));
  by_buyback = rw h (omega (arith, y, s.by_buyback, sum_of-append bought b.history (r ∷ [])));
}

burn_slashed-IsSound :
    (now : ℕ) (validator : Address) (amount : Amount) (n : ℕ) (b : BurningMechanism)
    → IsSound b
    → IsSound (burn_slashed now validator amount n b).1
unfolding burn_slashed
burn_slashed-IsSound now validator amount n b s =
    grown-IsSound b _
      (record { burn_type = slashing validator amount; block_number = n; timestamp = now }) s refl
      refl (omega arith) (omega arith) refl (omega arith)

buyback_and_burn-IsSound :
    (now : ℕ) (amount : Amount) (n : ℕ) (b : BurningMechanism)
    → IsSound b
    → IsSound (buyback_and_burn now amount n b).1
unfolding buyback_and_burn
buyback_and_burn-IsSound now amount n b s =
    grown-IsSound b _ (record { burn_type = buy_back amount; block_number = n; timestamp = now }) s
      refl refl (omega arith) (omega arith) (omega arith) refl

burn_excess_utility-IsSound :
    (now : ℕ) (index : F64) (treasury : Amount) (n : ℕ) (b : BurningMechanism)
    → IsSound b
    → IsSound (burn_excess_utility now index treasury n b).1
unfolding burn_excess_utility
burn_excess_utility-IsSound now index treasury n b s =
    split b.config.enable_excess_burn (at_most index b.config.utility_target)
  where
    amount : Amount
    amount = excess_amount index treasury b.config

    split :
        (on low : Bool)
        → IsSound
            (if not on
              then (ok 0, b)
              else (if low then (ok 0, b) else burn_excess now index treasury n b)).1
    split false low = s
    split true true = s
    split true false =
        grown-IsSound b _
          (record { burn_type = excess_utility index amount; block_number = n; timestamp = now }) s
          refl refl (omega arith) refl (omega arith) (omega arith)

kinds_add_up :
    (h : List BurnRecord)
    → sum_of burned h ≡ sum_of fees h + sum_of excess h + sum_of slashed h + sum_of bought h
kinds_add_up [] = refl
kinds_add_up (r ∷ h) = ground (arith, kinds_add_up h)

-- The totals while fees of some amount are on the history and not yet in the totals.
record IsOpen (b : BurningMechanism) (open_fees : Amount) : Type 0 where
  pub all : b.total_burned + open_fees ≡ sum_of burned b.history
  pub by_fees : b.fee_burns + open_fees ≡ sum_of fees b.history
  pub by_excess : b.excess_burns ≡ sum_of excess b.history
  pub by_slashing : b.slashing_burns ≡ sum_of slashed b.history
  pub by_buyback : b.buyback_burns ≡ sum_of bought b.history

-- The loop over the fees returns what is still open.
abbrev Opens : Result TokenomicsError Amount × BurningMechanism → Type 0
Opens (ok total, b) = IsOpen b total
Opens (err e, b) = ⊥
Opens (panic, b) = ⊥

burn_fees-Opens :
    (host : Host) (now n : ℕ) (txs : List Transaction) (total : Amount) (b : BurningMechanism)
    → IsOpen b total
    → Opens (burn_fees host now n txs total b)
unfolding burn_fees
burn_fees-Opens host now n [] total b o = o
burn_fees-Opens host now n (tx ∷ txs) total b o =
    let amount = fee_burn tx b.config in
    let r : BurnRecord = record {
      burn_type = transaction_fee (transaction_hash host tx) amount;
      block_number = n;
      timestamp = now;
    } in
    burn_fees-Opens host now n txs (total + amount)
      (push_record now n (transaction_fee (transaction_hash host tx) amount) b)
      (record {
        all = omega (arith, o.all, sum_of-append burned b.history (r ∷ []));
        by_fees = omega (arith, o.by_fees, sum_of-append fees b.history (r ∷ []));
        by_excess = omega (arith, o.by_excess, sum_of-append excess b.history (r ∷ []));
        by_slashing = omega (arith, o.by_slashing, sum_of-append slashed b.history (r ∷ []));
        by_buyback = omega (arith, o.by_buyback, sum_of-append bought b.history (r ∷ []));
      })

burn_transaction_fees-IsSound :
    (host : Host) (now : ℕ) (txs : List Transaction) (n : ℕ) (b : BurningMechanism)
    → IsSound b
    → IsSound (burn_transaction_fees host now txs n b).1
unfolding burn_transaction_fees
burn_transaction_fees-IsSound host now txs n b s = split (burn_fees host now n txs 0 b) (
    burn_fees-Opens host now n txs 0 b (record {
      all = omega (arith, s.all);
      by_fees = omega (arith, s.by_fees);
      by_excess = s.by_excess;
      by_slashing = s.by_slashing;
      by_buyback = s.by_buyback;
    }))
  where
    split :
        (o : Result TokenomicsError Amount × BurningMechanism)
        → Opens o
        → IsSound (continue o.0 (λ total. add_fees total >> pure total) o.1).1
    split (ok total, c) i = record {
      all = i.all;
      by_fees = i.by_fees;
      by_excess = i.by_excess;
      by_slashing = i.by_slashing;
      by_buyback = i.by_buyback;
    }
    split (err e, c) i = absurd i
    split (panic, c) i = absurd i

-- The calls of the mechanism. The first number is the clock's reading, the last the block's.
pub data BurnCall : Type 0 where
  burns_fees : ℕ → List Transaction → ℕ → BurnCall
  burns_excess : ℕ → F64 → Amount → ℕ → BurnCall
  burns_slashed : ℕ → Address → Amount → ℕ → BurnCall
  buys_back : ℕ → Amount → ℕ → BurnCall
  configures : BurnConfig → BurnCall

module _ (host : Host) where
  abbrev pub call : BurnCall → BurningMechanism → BurningMechanism
  call (burns_fees now txs n) b = (burn_transaction_fees host now txs n b).1
  call (burns_excess now index treasury n) b = (burn_excess_utility now index treasury n b).1
  call (burns_slashed now validator amount n) b = (burn_slashed now validator amount n b).1
  call (buys_back now amount n) b = (buyback_and_burn now amount n b).1
  call (configures config) b = update_config config b

  abbrev pub calls : List BurnCall → BurningMechanism → BurningMechanism
  calls [] b = b
  calls (c ∷ cs) b = calls cs (call c b)

  call-IsSound : (c : BurnCall) (b : BurningMechanism) → IsSound b → IsSound (call c b)
  unfolding update_config
  call-IsSound (burns_fees now txs n) b s = burn_transaction_fees-IsSound host now txs n b s
  call-IsSound (burns_excess now index treasury n) b s =
      burn_excess_utility-IsSound now index treasury n b s
  call-IsSound (burns_slashed now validator amount n) b s =
      burn_slashed-IsSound now validator amount n b s
  call-IsSound (buys_back now amount n) b s = buyback_and_burn-IsSound now amount n b s
  call-IsSound (configures config) b s = record {
    all = s.all;
    by_fees = s.by_fees;
    by_excess = s.by_excess;
    by_slashing = s.by_slashing;
    by_buyback = s.by_buyback;
  }

  calls-IsSound : (cs : List BurnCall) (b : BurningMechanism) → IsSound b → IsSound (calls cs b)
  calls-IsSound [] b s = s
  calls-IsSound (c ∷ cs) b s = calls-IsSound cs (call c b) (call-IsSound c b s)

  -- After any calls of a new mechanism, what was burned in all and by fees, excess, slashing and
  -- buying back are the sums of the records of the history, in all and of each kind, and the four
  -- kinds add up to the total.
  pub burns_add_up :
      (config : BurnConfig) (cs : List BurnCall)
      → let b = calls cs (new_burning config) in
        (b.total_burned ≡ sum_of burned b.history)
        × (b.fee_burns ≡ sum_of fees b.history)
        × (b.excess_burns ≡ sum_of excess b.history)
        × (b.slashing_burns ≡ sum_of slashed b.history)
        × (b.buyback_burns ≡ sum_of bought b.history)
        × (b.total_burned ≡ b.fee_burns + b.excess_burns + b.slashing_burns + b.buyback_burns)
  unfolding new_burning
  burns_add_up config cs =
      let s = calls-IsSound cs (new_burning config) (record {
        all = refl;
        by_fees = refl;
        by_excess = refl;
        by_slashing = refl;
        by_buyback = refl;
      }) in
      let h = (calls cs (new_burning config)).history in
      (s.all, s.by_fees, s.by_excess, s.by_slashing, s.by_buyback, omega (arith, s, kinds_add_up h))
