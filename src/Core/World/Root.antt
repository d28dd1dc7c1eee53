-- ===== src/Core/World/Root.antt =====
-- `state_root` of crates/blockchain-core/src/state.rs and the order of the map of accounts.
use kainotes.Prelude.{
  ltb, ◌≡◌, ap, Option, none, some, List, [], ◌∷◌, if◌then◌else◌, arith, Bool-cases, inl, inr,
}
use kainotes.Prelude.Result.Exec.{Exec}
use kainotes.Dict.{Dict, IsDistinct}
use kainotes.Dict.Laws.{insert-IsDistinct, remove-IsDistinct}
use kainotes.Dict.Sorted.{sort_by_key_unique}
use kainotes.Core.Types.{Address, Amount, zero_hash}
use kainotes.Core.Transaction.{is_empty}
use kainotes.Core.Error.{BlockchainError}
use kainotes.Core.Account.{Account}
use kainotes.Core.Host.{Host}
use kainotes.Core.World.{
  WorldState, StateModification, checkpoint_mark, account_set, set_account, with_account, transfer,
  checkpoint, rollback, undo, restore, state_root, combined, record_account_modification,
  get_account,
}
use kainotes.Core.World.Access.{with_account_lem}
use kainotes.Core.World.Transfer.{transfer_lem}
use kainotes.Core.World.Rollback.{SameAccounts, Edits, start, assign, call, move, rollback_restores}

-- Two worlds with the same account at each address have the same root.
pub state_root-SameAccounts :
    (host : Host) (s t : WorldState)
    → IsDistinct s.accounts
    → IsDistinct t.accounts
    → SameAccounts s.accounts t.accounts
    → state_root host s ≡ state_root host t
unfolding state_root
state_root-SameAccounts host s t hs ht h =
    ap (λ l. let bytes = combined host l in if is_empty bytes then zero_hash else host.sha256 bytes)
      (sort_by_key_unique s.accounts t.accounts hs ht h)

pub set_account-IsDistinct :
    (a : Address) (v : Account) (s : WorldState)
    → IsDistinct s.accounts
    → IsDistinct (set_account a v s).accounts
unfolding set_account record_account_modification
set_account-IsDistinct a v s h = ground (arith, insert-IsDistinct a v s.accounts h)

pub with_account-IsDistinct :
    (a : Address) (m : Exec BlockchainError Account Unit) (s : WorldState)
    → IsDistinct s.accounts
    → IsDistinct (with_account a m s).1.accounts
with_account-IsDistinct a m s h = rw ((with_account_lem a m s).1) (set_account-IsDistinct a _ s h)

pub transfer-IsDistinct :
    (from to : Address) (amount : Amount) (s : WorldState)
    → IsDistinct s.accounts
    → IsDistinct (transfer from to amount s).1.accounts
transfer-IsDistinct from to amount s h =
    elim (Bool-cases (ltb (get_account from s).balance amount)) [
      | inl short ↦ rw (transfer_lem from to amount s, short) h
      | inr covered ↦
          rw (transfer_lem from to amount s, covered)
            (set_account-IsDistinct to _ _ (set_account-IsDistinct from _ s h))
    ]

restore-IsDistinct :
    (a : Address) (old : Option Account) (d : Dict Account)
    → IsDistinct d
    → IsDistinct (restore a old d)
restore-IsDistinct a none d h = remove-IsDistinct a d h
restore-IsDistinct a (some v) d h = insert-IsDistinct a v d h

pub undo-IsDistinct :
    (ms : List StateModification) (d : Dict Account) → IsDistinct d → IsDistinct (undo ms d)
unfolding undo
undo-IsDistinct [] d h = h
undo-IsDistinct (checkpoint_mark ∷ ms) d h = h
undo-IsDistinct (account_set a old ∷ ms) d h =
    undo-IsDistinct ms (restore a old d) (restore-IsDistinct a old d h)

rollback-IsDistinct : (t : WorldState) → IsDistinct t.accounts → IsDistinct (rollback t).accounts
unfolding rollback
rollback-IsDistinct t h = undo-IsDistinct t.modifications t.accounts h

Edits-IsDistinct : {s t : WorldState} → Edits s t → IsDistinct s.accounts → IsDistinct t.accounts
Edits-IsDistinct start h = h
Edits-IsDistinct (assign {t = t} a v e) h = set_account-IsDistinct a v t (Edits-IsDistinct e h)
Edits-IsDistinct (call {t = t} a m e) h = with_account-IsDistinct a m t (Edits-IsDistinct e h)
Edits-IsDistinct (move {t = t} from to amount e) h =
    transfer-IsDistinct from to amount t (Edits-IsDistinct e h)

-- A rollback gives back the state root that the world had at the checkpoint, if the map of accounts
-- has no key twice.
state_root-rollback :
    (host : Host) (s t : WorldState)
    → IsDistinct s.accounts
    → Edits (checkpoint s) t
    → state_root host (rollback t) ≡ state_root host s
state_root-rollback host s t h e =
    state_root-SameAccounts host (rollback t) s
      (rollback-IsDistinct t (Edits-IsDistinct e (unfold checkpoint in h))) h
      ((rollback_restores s t e).0)
