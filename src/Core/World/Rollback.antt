-- ===== src/Core/World/Rollback.antt =====
-- `checkpoint`, `commit` and `rollback` of crates/blockchain-core/src/state.rs.
use kainotes.Prelude.{
  sym, ltb, Bool-cases, inl, inr, ◌⊎◌, ◌≢◌, ℕ, ◌≡◌, refl, ◌∙◌, true, false, Option, none, some,
  List, [], ◌∷◌, arith, ◌==◌,
}
use kainotes.Prelude.Result.Exec.{Exec}
use kainotes.Dict.{Dict, lookup, insert}
use kainotes.Dict.Laws.{lookup-insert, lookup-remove}
use kainotes.Core.Types.{Address, Amount}
use kainotes.Core.Error.{BlockchainError}
use kainotes.Core.Account.{Account}
use kainotes.Core.World.Transfer.{transfer_lem}
use kainotes.Core.World.{
  StateModification, checkpoint_mark, account_set, WorldState, is_recorded,
  record_account_modification, commit, get_account, or_empty, with_account, set_account, transfer,
  checkpoint, drop_transaction, restore, undo, rollback,
}

-- Two maps that a reader of single accounts cannot tell apart.
abbrev pub SameAccounts : Dict Account → Dict Account → Type 0
SameAccounts d e = (k : ℕ) → lookup k d ≡ lookup k e

-- They agree where the journal, back to its last checkpoint, has no entry.
abbrev AgreeOffJournal : List StateModification → Dict Account → Dict Account → Type 0
AgreeOffJournal ms d e = (k : ℕ) → is_recorded k ms ≡ false → lookup k d ≡ lookup k e

lookup-restore :
    (k a : ℕ) (old : Option Account) (d : Dict Account)
    → (lookup k (restore a old d) ≡ old) × (a ≡ k)
      ⊎ (lookup k (restore a old d) ≡ lookup k d) × (a ≢ k)
lookup-restore k a none d = ground (arith, lookup-remove k a d)
lookup-restore k a (some v) d = ground (arith, lookup-insert k a v d)

undo-cong :
    (ms : List StateModification) (d e : Dict Account)
    → AgreeOffJournal ms d e
    → SameAccounts (undo ms d) (undo ms e)
unfolding undo is_recorded
undo-cong [] d e h k = h k refl
undo-cong (checkpoint_mark ∷ ms) d e h k = h k refl
undo-cong (account_set a old ∷ ms) d e h k =
    undo-cong ms (restore a old d) (restore a old e)
      (λ k r. ground (arith, lookup-restore k a old d, lookup-restore k a old e, h k)) k

-- Rolling back from either state leads to the same accounts and the same journal.
pub record SameOrigin (s t : WorldState) : Type 0 where
  pub accounts : SameAccounts (undo s.modifications s.accounts) (undo t.modifications t.accounts)
  pub journal : drop_transaction s.modifications ≡ drop_transaction t.modifications

pub SameOrigin-refl : (s : WorldState) → SameOrigin s s
SameOrigin-refl s = record { accounts = λ k. refl; journal = refl }

pub SameOrigin-trans : {s t u : WorldState} → SameOrigin s t → SameOrigin t u → SameOrigin s u
SameOrigin-trans p q = record {
  accounts = λ k. p.accounts k ∙ q.accounts k;
  journal = p.journal ∙ q.journal;
}

undo-insert :
    (a : Address) (v : Account) (s : WorldState)
    → is_recorded a s.modifications ≡ true
    → SameAccounts (undo s.modifications s.accounts) (undo s.modifications (insert a v s.accounts))
undo-insert a v s e = undo-cong s.modifications s.accounts (insert a v s.accounts) λ j r.
    elim (Bool-cases (a == j)) [
      | inl same ↦ absurd (ground (arith, e))
      | inr other ↦ ground (arith, lookup-insert j a v s.accounts)
    ]

undo-record :
    (a : Address) (v : Account) (s : WorldState)
    → SameAccounts
        (undo s.modifications s.accounts)
        (undo (account_set a (lookup a s.accounts) ∷ s.modifications) (insert a v s.accounts))
unfolding undo
undo-record a v s =
    undo-cong s.modifications s.accounts (restore a (lookup a s.accounts) (insert a v s.accounts))
      λ j r. ground (
        arith,
        lookup-restore j a (lookup a s.accounts) (insert a v s.accounts),
        lookup-insert j a v s.accounts,
      )

-- The journal entry that is made before a write is enough to take the write back.
write-SameOrigin :
    (a : Address) (v : Account) (s : WorldState)
    → let s1 = record_account_modification a s in
      SameOrigin s (record s1 { accounts = insert a v s1.accounts })
unfolding record_account_modification drop_transaction
write-SameOrigin a v s = elim (Bool-cases (is_recorded a s.modifications)) [
  | inl e ↦ rw e (record { accounts = undo-insert a v s e; journal = refl })
  | inr e ↦ rw e (record { accounts = undo-record a v s; journal = refl })
]

pub set_account-SameOrigin :
    (a : Address) (v : Account) (s : WorldState) → SameOrigin s (set_account a v s)
unfolding set_account
set_account-SameOrigin a v s = write-SameOrigin a v s

pub with_account-SameOrigin :
    {A : Type 0} (a : Address) (m : Exec BlockchainError Account A) (s : WorldState)
    → SameOrigin s (with_account a m s).1
unfolding with_account
with_account-SameOrigin a m s =
    write-SameOrigin a (m (or_empty (lookup a (record_account_modification a s).accounts))).1 s

pub transfer-SameOrigin :
    (from to : Address) (amount : Amount) (s : WorldState)
    → SameOrigin s (transfer from to amount s).1
transfer-SameOrigin from to amount s = elim (Bool-cases (ltb (get_account from s).balance amount)) [
  | inl short ↦ rw (transfer_lem from to amount s, short) (SameOrigin-refl s)
  | inr covered ↦
      rw (transfer_lem from to amount s, covered)
        (SameOrigin-trans (set_account-SameOrigin from _ s) (set_account-SameOrigin to _ _))
]

-- Everything that runs between a checkpoint and its rollback.
pub data Edits (s : WorldState) : WorldState → Type 0 where
  start : Edits s s
  assign : {t : WorldState} (a : Address) (v : Account) → Edits s t → Edits s (set_account a v t)
  call :
      {t : WorldState} (a : Address) (m : Exec BlockchainError Account Unit)
      → Edits s t
      → Edits s (with_account a m t).1
  move :
      {t : WorldState} (from to : Address) (amount : Amount)
      → Edits s t
      → Edits s (transfer from to amount t).1

Edits-SameOrigin : {s t : WorldState} → Edits s t → SameOrigin s t
Edits-SameOrigin start = SameOrigin-refl _
Edits-SameOrigin (assign {t = t} a v e) =
    SameOrigin-trans (Edits-SameOrigin e) (set_account-SameOrigin a v t)
Edits-SameOrigin (call {t = t} a m e) =
    SameOrigin-trans (Edits-SameOrigin e) (with_account-SameOrigin a m t)
Edits-SameOrigin (move {t = t} from to amount e) =
    SameOrigin-trans (Edits-SameOrigin e) (transfer-SameOrigin from to amount t)

-- Whatever is assigned, run on single accounts or transferred after a checkpoint, whether it
-- succeeds or fails, a rollback gives every address the account that it had at the checkpoint, and
-- leaves the journal as it was before the checkpoint.
pub rollback_restores :
    (s t : WorldState)
    → Edits (checkpoint s) t
    → SameAccounts (rollback t).accounts s.accounts × ((rollback t).modifications ≡ s.modifications)
unfolding rollback checkpoint
rollback_restores s t e = let o = Edits-SameOrigin e in (λ k. sym (o.accounts k), sym o.journal)

-- A commit after a checkpoint keeps the accounts, and leaves the journal as it was before it.
pub commit_keeps :
    (s t : WorldState)
    → Edits (checkpoint s) t
    → ((commit t).accounts ≡ t.accounts) × ((commit t).modifications ≡ s.modifications)
unfolding commit checkpoint drop_transaction
commit_keeps s t e = (refl, sym (Edits-SameOrigin e).journal)
