-- ===== src/Restore/Steps.antt =====
-- maintenance/coordinated_restore.py: the service's helpers, one by one.
use ledgermind_local.Prelude.{
  ℕ, Bool, true, false, ◌&&◌, Option, none, some, ◌∷◌, ltb, ◌==◌, if◌then◌else◌,
}
use ledgermind_local.Restore.{
  RestoreJournal, Code, Fault, restore_error, other_error, CoreCall, begin_call, commit_call,
  rollback_call, BeginRestoreResult, CommitRestoreResult, JournalState, committed, Session, M, ◌>>◌,
  pure, throw, modify, try_with, call, with_state, restore_inconsistent, rounds_failed,
  rounds_corrupt, health_failed, commit_failed, rollback_failed, manifest_mismatch,
}

abbrev pub restore_fault : Code → Fault
restore_fault c = restore_error c false false

-- `_write_journal`
unfoldable pub write_journal : RestoreJournal → M (Unit {0})
write_journal j = call other_error (λ s. record s { journal_file = some j })

unfoldable pub stop_core : M (Unit {0})
stop_core = call other_error (λ s. record s { core_running = false })

unfoldable pub start_core : M (Unit {0})
start_core = call other_error (λ s. record s { core_running = true })

-- `_require_healthy`; an answer that is not healthy is a failure of the call.
unfoldable pub require_healthy : M (Unit {0})
require_healthy = call (restore_fault health_failed) (λ s. s)

-- `_verify_sqlite`
unfoldable pub verify_sqlite : M (Unit {0})
verify_sqlite = call (restore_fault rounds_corrupt) (λ s. s)

-- `_atomic_copy` over the rounds database, and `_remove_sqlite_sidecars`
unfoldable pub copy_rounds : ℕ → M (Unit {0})
copy_rounds content =
    call (restore_fault rounds_failed) (λ s. record s { rounds = content })
    >> call (restore_fault rounds_failed) (λ s. s)

abbrev pub replace_from : Option ℕ → M (Unit {0})
replace_from none = throw (restore_fault rounds_failed)
replace_from (some content) = verify_sqlite >> copy_rounds content >> verify_sqlite

-- `_replace_rounds_database`
unfoldable pub replace_rounds_database : M (Unit {0})
unfolding verify_sqlite copy_rounds
replace_rounds_database s = replace_from s.snapshot_file s

abbrev pub restore_from : Option ℕ → M (Unit {0})
restore_from none = throw (restore_fault rounds_failed)
restore_from (some content) = verify_sqlite >> copy_rounds content

-- `_restore_rounds_database`
unfoldable pub restore_rounds_database : M (Unit {0})
unfolding verify_sqlite copy_rounds
restore_rounds_database s = restore_from s.rollback_file s

abbrev pub log_call : CoreCall → Session → Session
log_call c s = record s { core_calls = c ∷ s.core_calls }

abbrev pub says_committed : JournalState → Bool
says_committed committed = true
says_committed _ = false

-- The checks of CommitRestoreResult, whose exceptions become `restore_commit_failed`.
abbrev pub is_valid_commit : CommitRestoreResult → Bool
is_valid_commit r = r.is_committed && says_committed r.state

abbrev pub commit_of : Option ℕ → M CommitRestoreResult
commit_of none = throw (restore_fault commit_failed)
commit_of (some k) = call (restore_fault commit_failed) (log_call commit_call) >> λ s.
    (if is_valid_commit s.commit_answer
        then pure s.commit_answer
        else throw (restore_fault commit_failed))
      s

-- `_commit`
unfoldable pub commit : RestoreJournal → M CommitRestoreResult
commit j = commit_of j.core_restore_transaction_id

abbrev pub rollback_of : Option ℕ → M (Unit {0})
rollback_of none = throw (restore_fault rollback_failed)
rollback_of (some k) = call other_error (log_call rollback_call)

-- `_rollback_core`
unfoldable pub rollback_core : RestoreJournal → M (Unit {0})
rollback_core j = rollback_of j.core_restore_transaction_id

-- `_begin`
unfoldable pub begin : BeginRestoreResult → M BeginRestoreResult
begin answer = call other_error (log_call begin_call) >> pure answer

-- `_mark_inconsistent`
unfoldable pub mark_inconsistent : RestoreJournal → M (Unit {0})
unfolding write_journal
mark_inconsistent j = try_with (write_journal (with_state restore_inconsistent j)) (λ e. pure tt)

-- `_safe_start_after_failure`
unfoldable pub safe_start_after_failure : M (Unit {0})
unfolding start_core
safe_start_after_failure = try_with start_core (λ e. pure tt)

-- `_cleanup_failed_before_begin` and `_cleanup_success`, which differ by the directory's sync: the
-- rollback file, the exchanged file, the staging directory and last the journal.
unfoldable pub cleanup : M (Unit {0})
cleanup =
    call other_error (λ s. record s { rollback_file = none })
    >> call other_error (λ s. s)
    >> modify (λ s. record s { snapshot_file = none })
    >> call other_error (λ s. record s { journal_file = none })

-- `_verify_core_manifest`; a journal's size is never below zero.
unfoldable pub verify_core_manifest : RestoreJournal → M (Unit {0})
verify_core_manifest j =
    if (j.backup_id == j.core_sha256) && ltb 0 j.core_schema_version
    then pure tt
    else throw (restore_fault manifest_mismatch)
