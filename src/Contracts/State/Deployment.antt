-- ===== src/Contracts/State/Deployment.antt =====
-- `EVMState::deploy_contract` and the storage of contracts, crates/smart-contracts/src/state.rs.
use kainotes.Prelude.{
  ℕ, ◌≡◌, sym, ap, subst, ◌⊎◌, inl, inr, arith, some, [], true, false, ◌==◌, ◌&&◌, if◌then◌else◌,
}
use kainotes.Prelude.Result.{ok, err}
use kainotes.Dict.{lookup, insert, contains}
use kainotes.Dict.Laws.{lookup-insert, lookup-insert_self}
use kainotes.Core.Types.{Bytes, Hash, Address, Amount}
use kainotes.Contracts.Gas.{deployment_failed}
use kainotes.Contracts.State.{
  EvmState, get_code, get_code_hash, get_balance, get_storage, set_storage, is_contract,
  new_contract, deploy_contract, or_none,
}

-- A value that was stored is read back, and no other slot of any contract changes.
get_storage-set_storage :
    (a b : Address) (slot other value : ℕ) (s : EvmState)
    → get_storage b other (set_storage a slot value s)
      ≡ (if (a == b) && (slot == other) then value else get_storage b other s)
unfolding get_storage set_storage lookup
get_storage-set_storage a b slot other value s = ground (
  arith,
  lookup-insert b a (insert slot value (or_none (lookup a s.storage))) s.storage,
  lookup-insert other slot value (or_none (lookup a s.storage)),
)

module _ (sha256 : Bytes → Hash) (address : Address) (code : Bytes) (balance : Amount) where
  -- What stands at an address after a deployment.
  pub record IsDeployed (t : EvmState) : Type 0 where
    pub stored_code : get_code address t ≡ some code
    pub stored_hash : get_code_hash address t ≡ sha256 code
    pub stored_balance : get_balance address t ≡ balance
    pub empty_storage : (slot : ℕ) → get_storage address slot t ≡ 0
    pub taken : is_contract address t ≡ true

  -- The state that a deployment writes.
  abbrev deployed : EvmState → EvmState
  deployed s = record s {
    contracts = insert address (new_contract sha256 address code balance) s.contracts;
    balances = insert address balance s.balances;
    storage = insert address [] s.storage;
  }

  deployed-IsDeployed : (s : EvmState) → IsDeployed (deployed s)
  unfolding get_code get_code_hash get_balance get_storage is_contract new_contract contains lookup
  deployed-IsDeployed s =
      let c = lookup-insert_self address (new_contract sha256 address code balance) s.contracts in
      record {
        stored_code = ground (arith, c);
        stored_hash = ground (arith, c);
        stored_balance = ground (arith, lookup-insert_self address balance s.balances);
        empty_storage = λ slot. ground (arith, lookup-insert_self address [] s.storage);
        taken = ground (arith, c);
      }

  deploy_contract-cases :
      (s : EvmState)
      → (is_contract address s ≡ true)
          × (deploy_contract sha256 address code balance s ≡ (err deployment_failed, s))
        ⊎ (is_contract address s ≡ false)
          × (deploy_contract sha256 address code balance s ≡ (ok tt, deployed s))
  unfolding deploy_contract is_contract contains
  deploy_contract-cases s = ground arith

  -- A deployment to an address with a contract fails and changes nothing; one to an address without
  -- a contract succeeds and leaves the code, its hash, the balance and an empty storage there.
  deploy_contract_lem :
      (s : EvmState)
      → (is_contract address s ≡ true)
          × (deploy_contract sha256 address code balance s ≡ (err deployment_failed, s))
        ⊎ (is_contract address s ≡ false)
          × ((deploy_contract sha256 address code balance s).0 ≡ ok tt)
          × IsDeployed (deploy_contract sha256 address code balance s).1
  deploy_contract_lem s = elim (deploy_contract-cases s) [
    | inl fails ↦ inl fails
    | inr (free, e) ↦
        inr
          (free, ap (λ x. x.0) e, subst IsDeployed (sym (ap (λ x. x.1) e)) (deployed-IsDeployed s))
  ]
