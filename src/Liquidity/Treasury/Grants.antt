-- ===== src/Liquidity/Treasury/Grants.antt =====
-- What the grants of crates/liquidity/src/treasury.rs have paid, over any calls of the treasury.
use kainotes.Prelude.{
  ℕ, zero, suc, ◌+◌, ◌≡◌, refl, ap, true, some, List, [], ◌∷◌, arith, ltb, ◌==◌, sum_of, get_elem?,
  replace_elem, All, Option-cases, Bool-cases, inl, inr,
}
use kainotes.Dict.{lookup}
use kainotes.Dict.Every.{All-insert, All-lookup}
use kainotes.Core.Types.{Address, Amount, Hash, Bytes, checked_sub}
use kainotes.Liquidity.Pool.{LiquidityPool}
use kainotes.Liquidity.Treasury.{
  Category, Milestone, Grant, NetworkTreasury, new_grant, new_treasury, deposit_funds,
  set_allocation, propose_grant, approve_grant, is_complete, is_payable, current_milestone_info,
  total_milestone_amounts, available, put_grant, is_proposed, is_closed, approved, completed,
  cancelled,
}
use kainotes.Liquidity.Treasury.Payments.{disburse_milestone, cancel_grant, reach, spend}

abbrev pub amount_of : Milestone → Amount
amount_of m = m.amount

-- The sum of the amounts from a place on.
abbrev pub left_from : ℕ → List Milestone → Amount
left_from zero ms = sum_of amount_of ms
left_from (suc n) [] = 0
left_from (suc n) (m ∷ ms) = left_from n ms

-- What was paid and what the milestones ahead will pay add up to the grant.
abbrev pub IsFunded : ℕ × Grant → Type 0
IsFunded (id, g) = g.disbursed + left_from g.current_milestone g.milestones ≡ g.amount

left_from-replace :
    (n : ℕ) (m k : Milestone) (ms : List Milestone)
    → get_elem? ms n ≡ some m
    → k.amount ≡ m.amount
    → left_from n ms ≡ m.amount + left_from (suc n) (replace_elem n k ms)
left_from-replace n m k [] h e = cc
left_from-replace zero m k (x ∷ ms) h e = ground (arith, h)
left_from-replace (suc n) m k (x ∷ ms) h e = left_from-replace n m k ms h e

reach-IsFunded :
    (now : ℕ) (id : Hash) (m : Milestone) (g : Grant)
    → get_elem? g.milestones g.current_milestone ≡ some m
    → IsFunded (id, g)
    → IsFunded (id, reach now m g)
unfolding reach is_complete
reach-IsFunded now id m g h f =
    let n = g.current_milestone in
    let k = record m { completed = true; completed_at = some now } in
    let next : n + 1 ≡ suc n = omega arith in
    ground (
      arith,
      f,
      ap (λ i. left_from i (replace_elem n k g.milestones)) next,
      left_from-replace n m k g.milestones h refl,
    )

-- All grants of a treasury are funded.
abbrev Funded : NetworkTreasury → Type 0
Funded t = All IsFunded t.grants

spend-grants :
    (category : Category) (amount : Amount) (t : NetworkTreasury)
    → (spend category amount t).1.grants ≡ t.grants
unfolding spend
spend-grants category amount t = ground arith

module _ (t : NetworkTreasury) (funded : Funded t) where
  put_grant-Funded : (id : Hash) (g : Grant) → IsFunded (id, g) → Funded (put_grant id g t)
  put_grant-Funded id g f = All-insert IsFunded id g t.grants f funded

  propose-Funded :
      (grant_id : Address → ℕ → Hash) (now : ℕ) (recipient : Address) (amount : Amount)
      (purpose : Bytes) (milestones : List Milestone) (category : Category)
      → Funded (propose_grant grant_id now recipient amount purpose milestones category t).1
  unfolding propose_grant new_grant total_milestone_amounts
  propose-Funded grant_id now recipient amount purpose milestones category =
      elim (Option-cases (lookup category t.allocations)) [
        | inl missing ↦ rw (missing, propose_grant) funded
        | inr (a, found) ↦ elim (Bool-cases (ltb (available a) amount)) [
          | inl short ↦ rw (found, short, propose_grant) funded
          | inr enough ↦ elim (Bool-cases (sum_of amount_of milestones == amount)) [
            | inr wrong ↦ rw (found, enough, wrong, propose_grant) funded
            | inl right ↦
                let g = record (new_grant now recipient amount purpose milestones) {
                  id = grant_id recipient now;
                } in
                rw (found, enough, right, propose_grant)
                  (put_grant-Funded (grant_id recipient now) g (ground (arith, right)))
          ]
        ]
      ]

  approve-Funded : (now : ℕ) (id : Hash) → Funded (approve_grant now id t).1
  unfolding approve_grant
  approve-Funded now id = elim (Option-cases (lookup id t.grants)) [
    | inl missing ↦ rw (missing, approve_grant) funded
    | inr (g, found) ↦ elim (Bool-cases (is_proposed g.status)) [
      | inr other ↦ rw (found, other, approve_grant) funded
      | inl proposal ↦
          rw (found, proposal, approve_grant)
            (put_grant-Funded id (record g { status = approved; approved_at = some now })
              (All-lookup IsFunded id g t.grants funded found))
    ]
  ]

  reach-Funded :
      (now : ℕ) (id : Hash) (category : Category) (g : Grant) (m : Milestone)
      → lookup id t.grants ≡ some g
      → get_elem? g.milestones g.current_milestone ≡ some m
      → Funded (spend category m.amount (put_grant id (reach now m g) t)).1
  reach-Funded now id category g m found h =
      rw (spend-grants category m.amount (put_grant id (reach now m g) t)) (
        put_grant-Funded id (reach now m g)
          (reach-IsFunded now id m g h (All-lookup IsFunded id g t.grants funded found)))

  disburse-Funded :
      (now : ℕ) (id : Hash) (category : Category) → Funded (disburse_milestone now id category t).1
  unfolding disburse_milestone current_milestone_info
  disburse-Funded now id category = elim (Option-cases (lookup id t.grants)) [
    | inl missing ↦ rw (missing, disburse_milestone) funded
    | inr (g, found) ↦ elim (Bool-cases (is_payable g.status)) [
      | inr closed ↦ rw (found, closed, disburse_milestone) funded
      | inl payable ↦ elim (Bool-cases (is_complete g)) [
        | inl complete ↦
            rw (found, payable, complete, disburse_milestone)
              (put_grant-Funded id (record g { status = completed })
                (All-lookup IsFunded id g t.grants funded found))
        | inr going ↦ elim (Option-cases (get_elem? g.milestones g.current_milestone)) [
          | inl none_left ↦ rw (found, payable, going, none_left, disburse_milestone) funded
          | inr (m, h) ↦ elim (Bool-cases m.completed) [
            | inl again ↦ rw (found, payable, going, h, again, disburse_milestone) funded
            | inr first ↦
                rw (found, payable, going, h, first, disburse_milestone)
                  (reach-Funded now id category g m found h)
          ]
        ]
      ]
    ]
  ]

  cancel-Funded : (id : Hash) (category : Category) → Funded (cancel_grant id category t).1
  unfolding cancel_grant
  cancel-Funded id category = elim (Option-cases (lookup id t.grants)) [
    | inl missing ↦ rw (missing, cancel_grant) funded
    | inr (g, found) ↦ elim (Bool-cases (is_closed g.status)) [
      | inl closed ↦ rw (found, closed, cancel_grant) funded
      | inr running ↦ elim (Option-cases (checked_sub g.amount g.disbursed)) [
        | inl over ↦ rw (found, running, over, cancel_grant) funded
        | inr (unreleased, rest) ↦ elim (Option-cases (lookup category t.allocations)) [
          | inl unknown ↦ rw (found, running, rest, unknown, cancel_grant) funded
          | inr (a, known) ↦
              rw (found, running, rest, known, cancel_grant)
                (put_grant-Funded id (record g { status = cancelled })
                  (All-lookup IsFunded id g t.grants funded found))
        ]
      ]
    ]
  ]

-- The calls of the treasury. The first number is the clock's reading.
pub data TreasuryCall : Type 0 where
  deposits : ℕ → Address → Amount → TreasuryCall
  allocates : Category → Amount → TreasuryCall
  proposes : ℕ → Address → Amount → Bytes → List Milestone → Category → TreasuryCall
  approves : ℕ → Hash → TreasuryCall
  disburses : ℕ → Hash → Category → TreasuryCall
  cancels : Hash → Category → TreasuryCall

module _ (grant_id : Address → ℕ → Hash) where
  abbrev pub call : TreasuryCall → NetworkTreasury → NetworkTreasury
  call (deposits now depositor amount) t = (deposit_funds now depositor amount t).1
  call (allocates category amount) t = set_allocation category amount t
  call (proposes now recipient amount purpose milestones category) t =
      (propose_grant grant_id now recipient amount purpose milestones category t).1
  call (approves now id) t = (approve_grant now id t).1
  call (disburses now id category) t = (disburse_milestone now id category t).1
  call (cancels id category) t = (cancel_grant id category t).1

  abbrev pub calls : List TreasuryCall → NetworkTreasury → NetworkTreasury
  calls [] t = t
  calls (c ∷ cs) t = calls cs (call c t)

  call-Funded : (c : TreasuryCall) (t : NetworkTreasury) → Funded t → Funded (call c t)
  unfolding deposit_funds set_allocation
  call-Funded (deposits now depositor amount) t f = f
  call-Funded (allocates category amount) t f = f
  call-Funded (proposes now recipient amount purpose milestones category) t f =
      propose-Funded t f grant_id now recipient amount purpose milestones category
  call-Funded (approves now id) t f = approve-Funded t f now id
  call-Funded (disburses now id category) t f = disburse-Funded t f now id category
  call-Funded (cancels id category) t f = cancel-Funded t f id category

  calls-Funded : (cs : List TreasuryCall) (t : NetworkTreasury) → Funded t → Funded (calls cs t)
  calls-Funded [] t f = f
  calls-Funded (c ∷ cs) t f = calls-Funded cs (call c t) (call-Funded c t f)

  -- After any calls of a new treasury, whether they succeed or fail, what a grant has disbursed and
  -- the amounts of its milestones from the current one on add up to the amount of the grant.
  pub grant_pays_amount :
      (base : LiquidityPool) (threshold : ℕ) (cs : List TreasuryCall) (id : Hash) (g : Grant)
      → lookup id (calls cs (new_treasury base threshold)).grants ≡ some g
      → g.disbursed + left_from g.current_milestone g.milestones ≡ g.amount
  unfolding new_treasury
  grant_pays_amount base threshold cs id g h =
      All-lookup IsFunded id g _ (calls-Funded cs (new_treasury base threshold) tt) h
