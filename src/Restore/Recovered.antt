-- ===== src/Restore/Recovered.antt =====
-- What `apply_restore` and `recover` of maintenance/coordinated_restore.py leave on the disk.
use ledgermind_local.Prelude.{
  ℕ, Bool, true, false, Option, none, some, [], ◌≡◌, refl, ◌⊎◌, inl, inr, sym, ◌∙◌, ap,
}
use ledgermind_local.Restore.{
  RestoreJournal, JournalState, BeginRestoreResult, CoordinatedRestoreResult, Session, Outcome,
  returned, raised, died, committed, rolled_back, restore_inconsistent, prepared, begin_pending,
  applied_pending_commit, rounds_applied_pending_commit, healthy_pending_commit, with_transaction,
  call,
}
use ledgermind_local.Restore.Rules.{durable}
use ledgermind_local.Restore.Steps.{
  write_journal, stop_core, start_core, require_healthy, verify_sqlite, copy_rounds,
  restore_rounds_database, rollback_core, cleanup,
}
use ledgermind_local.Restore.Saga.{
  run_saga, recover, recover_from, recover_journal, roll_back, begin_if_needed, has_transaction,
}
use ledgermind_local.Restore.Safe.{file_knows, Safe, EndsIn}
use ledgermind_local.Restore.Ended.{Committed, run_saga-Ends}

-- A fresh journal over the rounds from before, or a journal that knows its transaction as the disk does.
unfoldable pub Applicable : ℕ → RestoreJournal → Session → Type 0
Applicable original j s =
    ((has_transaction j ≡ true) × (file_knows s.journal_file ≡ true))
    ⊎ ((has_transaction j ≡ false) × (s.rounds ≡ original))

Ends-Safe :
    (original target : ℕ) (x : Outcome CoordinatedRestoreResult × Session)
    → EndsIn original target (Committed original target) x
    → Safe original target (durable x.1)
Ends-Safe original target (returned r, s) h = inl (inr (h.0, h.1))
Ends-Safe original target (raised e, s) h = h.0
Ends-Safe original target (died, s) h = h

Ends-Committed :
    (original target : ℕ) (x : Outcome CoordinatedRestoreResult × Session)
    (r : CoordinatedRestoreResult)
    → EndsIn original target (Committed original target) x
    → x.0 ≡ returned r
    → Committed original target r x.1
Ends-Committed original target (returned q, s) r h e =
    let same : q ≡ r = cc e in
    (h.0, h.1, ap (λ (x : CoordinatedRestoreResult). x.state) (sym same) ∙ h.2)
Ends-Committed original target (raised f, s) r h e = absurd (cc e)
Ends-Committed original target (died, s) r h e = absurd (cc e)

saga :
    (original target : ℕ) (answer : BeginRestoreResult) (j : RestoreJournal) (s : Session)
    → s.rollback_file ≡ some original
    → s.snapshot_file ≡ some target
    → Applicable original j s
    → EndsIn original target (Committed original target) (run_saga answer j s)
unfolding Applicable
saga original target answer j s r f (inl h) =
    run_saga-Ends original target answer j s (r, f, inl (h.0, h.1, h.0))
saga original target answer j s r f (inr h) = run_saga-Ends original target answer j s (r, f, inr h)

-- Whatever calls fail, before or after their effect, and wherever the process dies, `apply_restore` on a
-- journal that is neither committed nor inconsistent leaves the rounds from before in the database, or the
-- new rounds with a commit that the Core was sent, or both the file with the rounds from before and a
-- journal on the disk that knows the Core's transaction. It starts with both files there, and either with
-- a journal without a transaction over the rounds from before or with one whose transaction the disk knows.
pub run_saga-Safe :
    (original target : ℕ) (answer : BeginRestoreResult) (j : RestoreJournal) (s : Session)
    → s.rollback_file ≡ some original
    → s.snapshot_file ≡ some target
    → Applicable original j s
    → Safe original target (durable (run_saga answer j s).1)
run_saga-Safe original target answer j s r f h =
    Ends-Safe original target (run_saga answer j s) (saga original target answer j s r f h)

-- When `apply_restore` returns a result from such a start, the result says committed, the database holds
-- the new rounds and the Core was sent the commit.
pub run_saga-Committed :
    (original target : ℕ) (answer : BeginRestoreResult) (j : RestoreJournal) (s : Session)
    (result : CoordinatedRestoreResult)
    → s.rollback_file ≡ some original
    → s.snapshot_file ≡ some target
    → Applicable original j s
    → (run_saga answer j s).0 ≡ returned result
    → Committed original target result (run_saga answer j s).1
run_saga-Committed original target answer j s result r f h e =
    Ends-Committed original target (run_saga answer j s) result
      (saga original target answer j s r f h) e

-- The states that `recover` rolls back.
abbrev pub is_open : JournalState → Bool
is_open committed = false
is_open restore_inconsistent = false
is_open prepared = true
is_open begin_pending = true
is_open applied_pending_commit = true
is_open rounds_applied_pending_commit = true
is_open healthy_pending_commit = true
is_open rolled_back = true

-- What a process that died left, read by a process in which nothing fails.
abbrev pub left_behind : JournalState → ℕ → RestoreJournal → ℕ → Session → Session
left_behind state k j n s = record s {
  fates = [];
  rollback_file = some n;
  journal_file = some (with_transaction state k j);
}

abbrev pub Recovered : ℕ → ℕ → ℕ → Outcome (Option CoordinatedRestoreResult) × Session → Type 0
Recovered restore_id k n x =
    (x.0
      ≡ returned (
          some (record {
            restore_id = restore_id;
            state = rolled_back;
            core_restore_transaction_id = some k;
          })))
    × (x.1.rounds ≡ n)
    × (x.1.rollback_file ≡ none)
    × (x.1.journal_file ≡ none)
    × (x.1.core_running ≡ true)

-- On a journal with a transaction, in any state but committed and inconsistent, and with the file of the
-- rounds from before, `recover` returns the result rolled back, puts those rounds back, starts the Core and
-- removes the file and the journal, when no call fails.
pub recover_lem :
    (answer : BeginRestoreResult) (state : JournalState) (k : ℕ) (j : RestoreJournal) (n : ℕ)
    (s : Session)
    → is_open state ≡ true
    → Recovered j.restore_id k n (recover answer (left_behind state k j n s))
unfolding recover recover_from recover_journal roll_back stop_core begin_if_needed rollback_core
    restore_rounds_database verify_sqlite copy_rounds start_core require_healthy write_journal
    cleanup call
recover_lem answer committed k j n s e = absurd (cc e)
recover_lem answer restore_inconsistent k j n s e = absurd (cc e)
recover_lem answer prepared k j n s e = (refl, refl, refl, refl, refl)
recover_lem answer begin_pending k j n s e = (refl, refl, refl, refl, refl)
recover_lem answer applied_pending_commit k j n s e = (refl, refl, refl, refl, refl)
recover_lem answer rounds_applied_pending_commit k j n s e = (refl, refl, refl, refl, refl)
recover_lem answer healthy_pending_commit k j n s e = (refl, refl, refl, refl, refl)
recover_lem answer rolled_back k j n s e = (refl, refl, refl, refl, refl)
