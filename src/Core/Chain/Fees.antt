-- ===== src/Core/Chain/Fees.antt =====
-- The effects of a transaction on the nonces and on the funds, when they succeed.
use kainotes.Prelude.{
  ◌+◌, ◌%◌, ◌≡◌, refl, sym, ap, ◌≢◌, ◌∙◌, arith, u64_mod, ◌==◌, if◌then◌else◌, subst,
}
use kainotes.Prelude.Result.{ok}
use kainotes.Prelude.Result.Exec.{bind-eq-ok}
use kainotes.Core.Types.{Address, Amount}
use kainotes.Core.Transaction.{Transaction, TransactionType, calculate_fee}
use kainotes.Core.Account
use kainotes.Core.Account.{Account}
use kainotes.Core.World.{WorldState, get_account, with_account}
use kainotes.Core.World.Access.{get_account-with_account, with_account_lem}
use kainotes.Core.World.Supply.{
  funds, supply, supply-with_account, funds-stake, funds-unstake, funds-deploy_liquidity,
  funds-withdraw_liquidity, transfer_conserves,
}
use kainotes.Core.Chain.{run_type, apply_effects, base_gas}
use kainotes.Core.Chain.Effects.{
  with_account-KeepsNonces, run_type-KeepsNonces, sub_balance-KeepsNonce,
}

-- The transaction is no transfer of an address to itself.
abbrev pub NotToSelf : Address → TransactionType → Type 0
NotToSelf from (TransactionType.transfer to amount) = from ≢ to
NotToSelf from (TransactionType.stake amount) = Unit
NotToSelf from (TransactionType.unstake amount) = Unit
NotToSelf from (TransactionType.deploy_liquidity pool amount) = Unit
NotToSelf from (TransactionType.withdraw_liquidity pool amount) = Unit
NotToSelf from (TransactionType.contract_deployment bytecode args) = Unit
NotToSelf from (TransactionType.contract_call contract input) = Unit

method-supply :
    (from : Address) (m : Account.AccountExec) (s : WorldState)
    → ((a : Account) → funds (m a).1 ≡ funds a)
    → supply (with_account from m s).1 ≡ supply s
method-supply from m s h = omega (arith, supply-with_account from m s, h (get_account from s))

run_type-supply :
    (from : Address) (tx_type : TransactionType) (s : WorldState)
    → NotToSelf from tx_type
    → supply (run_type from tx_type s).1 ≡ supply s
unfolding run_type
run_type-supply from (TransactionType.transfer to amount) s h =
    transfer_conserves from to amount s h
run_type-supply from (TransactionType.stake amount) s h =
    method-supply from (Account.stake amount) s (funds-stake amount)
run_type-supply from (TransactionType.unstake amount) s h =
    method-supply from (Account.unstake amount) s (funds-unstake amount)
run_type-supply from (TransactionType.deploy_liquidity pool amount) s h =
    method-supply from (Account.deploy_liquidity amount) s (funds-deploy_liquidity amount)
run_type-supply from (TransactionType.withdraw_liquidity pool amount) s h =
    method-supply from (Account.withdraw_liquidity amount) s (funds-withdraw_liquidity amount)
run_type-supply from (TransactionType.contract_deployment bytecode args) s h = refl
run_type-supply from (TransactionType.contract_call contract input) s h = refl

funds-increment_nonce : (a : Account) → funds (Account.increment_nonce a).1 ≡ funds a
unfolding Account.increment_nonce
funds-increment_nonce a = refl

nonce-increment_nonce :
    (a : Account) → (Account.increment_nonce a).1.nonce ≡ (a.nonce + 1) % u64_mod
unfolding Account.increment_nonce
nonce-increment_nonce a = refl

-- A debit that succeeds takes its amount from the funds.
funds-sub_balance :
    (amount : Amount) (a : Account)
    → (Account.sub_balance amount a).0 ≡ ok tt
    → funds (Account.sub_balance amount a).1 + amount ≡ funds a
unfolding Account.sub_balance
funds-sub_balance amount a h = ground arith

fee-supply :
    (from : Address) (fee : Amount) (s : WorldState)
    → (with_account from (Account.sub_balance fee) s).0 ≡ ok tt
    → supply (with_account from (Account.sub_balance fee) s).1 + fee ≡ supply s
fee-supply from fee s h =
    let paid =
      funds-sub_balance fee (get_account from s)
        (sym ((with_account_lem from (Account.sub_balance fee) s).0) ∙ h) in
    omega (arith, supply-with_account from (Account.sub_balance fee) s, paid)

-- The three parts of the effects, when all succeed.
record Parts (tx : Transaction) (s t : WorldState) : Type 0 where
  counted : WorldState
  run : WorldState
  counted_eq : counted ≡ (with_account tx.from Account.increment_nonce s).1
  run_eq : run ≡ (run_type tx.from tx.tx_type counted).1
  paid : with_account tx.from (Account.sub_balance (calculate_fee tx base_gas)) run ≡ (ok tt, t)

parts : (tx : Transaction) (s t : WorldState) → apply_effects tx s ≡ (ok tt, t) → Parts tx s t
unfolding apply_effects
parts tx s t h =
    let (a, s1, e1, h1) = bind-eq-ok (with_account tx.from Account.increment_nonce) _ s t tt h in
    let (b, s2, e2, h2) = bind-eq-ok (run_type tx.from tx.tx_type) _ s1 t tt h1 in
    record {
      counted = s1;
      run = s2;
      counted_eq = sym (ap (λ x. x.1) e1);
      run_eq = sym (ap (λ x. x.1) e2);
      paid = h2;
    }

-- Effects that succeed take exactly the fee out of circulation.
pub apply_effects-supply :
    (tx : Transaction) (s t : WorldState)
    → NotToSelf tx.from tx.tx_type
    → apply_effects tx s ≡ (ok tt, t)
    → supply t + calculate_fee tx base_gas ≡ supply s
apply_effects-supply tx s t n h =
    let p = parts tx s t h in
    let fee = calculate_fee tx base_gas in
    let counted : supply p.counted ≡ supply s =
      ap supply p.counted_eq
      ∙ method-supply tx.from Account.increment_nonce s funds-increment_nonce in
    let run : supply p.run ≡ supply p.counted =
      ap supply p.run_eq ∙ run_type-supply tx.from tx.tx_type p.counted n in
    let paid : supply t + fee ≡ supply p.run =
      subst (λ x. supply x + fee ≡ supply p.run) (ap (λ x. x.1) p.paid)
        (fee-supply tx.from fee p.run (ap (λ x. x.0) p.paid)) in
    paid ∙ run ∙ counted

counted_nonce :
    (from k : Address) (s : WorldState)
    → (get_account k (with_account from Account.increment_nonce s).1).nonce
      ≡ (if from == k then ((get_account from s).nonce + 1) % u64_mod else (get_account k s).nonce)
counted_nonce from k s =
    rw (get_account-with_account from Account.increment_nonce s k)
      (ground (arith, nonce-increment_nonce (get_account from s)))

-- Effects that succeed raise the sender's nonce by one, as a 64-bit word, and no other nonce.
pub apply_effects-nonce :
    (tx : Transaction) (k : Address) (s t : WorldState)
    → apply_effects tx s ≡ (ok tt, t)
    → (get_account k t).nonce ≡ (
        if tx.from == k
        then ((get_account tx.from s).nonce + 1) % u64_mod
        else (get_account k s).nonce)
apply_effects-nonce tx k s t h =
    let p = parts tx s t h in
    let pay = Account.sub_balance (calculate_fee tx base_gas) in
    let paid : (get_account k t).nonce ≡ (get_account k p.run).nonce =
      subst (λ x. (get_account k x).nonce ≡ (get_account k p.run).nonce) (ap (λ x. x.1) p.paid)
        (with_account-KeepsNonces tx.from pay (sub_balance-KeepsNonce _) k p.run) in
    let run : (get_account k p.run).nonce ≡ (get_account k p.counted).nonce =
      ap (λ x. (get_account k x).nonce) p.run_eq
      ∙ run_type-KeepsNonces tx.from tx.tx_type k p.counted in
    let counted : (get_account k p.counted).nonce ≡ _ =
      ap (λ x. (get_account k x).nonce) p.counted_eq ∙ counted_nonce tx.from k s in
    paid ∙ run ∙ counted
