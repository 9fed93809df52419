-- ===== src/Restore/Saga.antt =====
-- maintenance/coordinated_restore.py: `_compensate`, `apply_restore`, `recover` and `prepare_restore`.
use ledgermind_local.Prelude.{
  ℕ, Bool, true, false, ◌&&◌, ◌||◌, Option, none, some, ◌∷◌, ◌==◌, if◌then◌else◌,
}
use ledgermind_local.Prelude.Tables.{find}
use ledgermind_local.Restore.{
  JournalState, RestoreJournal, Code, Fault, restore_error, other_error, BeginRestoreResult,
  CommitRestoreResult, CoordinatedRestoreResult, M, ◌>>=◌, ◌>>◌, pure, throw, modify, try_with,
  call, with_state, with_transaction, prepared, begin_pending, applied_pending_commit,
  rounds_applied_pending_commit, healthy_pending_commit, committed, rolled_back,
  restore_inconsistent, inconsistent_code, manifest_mismatch, apply_failed, id_mismatch,
  journal_corrupt, prepare_failed,
}
use ledgermind_local.Restore.Steps.{
  restore_fault, write_journal, stop_core, start_core, require_healthy, verify_sqlite,
  replace_rounds_database, restore_rounds_database, commit, rollback_core, begin, mark_inconsistent,
  safe_start_after_failure, cleanup, verify_core_manifest,
}

abbrev pub inconsistent : Fault
inconsistent = restore_error inconsistent_code true false

-- A step of `_compensate`, whose exception is only counted: whether it succeeded.
unfoldable pub attempt : M (Unit {0}) → M Bool
attempt m = try_with (m >> pure true) (λ e. pure false)

-- `_compensate` of a transaction whose begin has an unknown outcome.
unfoldable pub compensate_unknown : RestoreJournal → Code → M (Unit {0})
unfolding write_journal mark_inconsistent
compensate_unknown j code =
    try_with (write_journal (with_state begin_pending j))
      (λ e. mark_inconsistent j >> throw inconsistent)
    >> throw (restore_error code false true)

abbrev pub finish_compensation : RestoreJournal → Code → Bool → M (Unit {0})
finish_compensation j code true =
    write_journal (with_state rolled_back j) >> cleanup >> throw (restore_error code false true)
finish_compensation j code false = mark_inconsistent j >> throw inconsistent

unfoldable pub compensate_known : RestoreJournal → Code → (stopped : Bool) → M (Unit {0})
unfolding attempt stop_core rollback_core restore_rounds_database start_core require_healthy
    write_journal mark_inconsistent cleanup
compensate_known j code stopped = (if stopped then pure true else attempt stop_core) >>= λ a.
    attempt (rollback_core j) >>= λ b. attempt (restore_rounds_database >> verify_sqlite) >>= λ c.
    attempt (start_core >> require_healthy) >>= λ d. finish_compensation j code (a && b && c && d)

abbrev pub compensate_by : Option ℕ → RestoreJournal → Code → (stopped : Bool) → M (Unit {0})
compensate_by none j code stopped = compensate_unknown j code
compensate_by (some k) j code stopped = compensate_known j code stopped

-- `_compensate`, which always raises.
unfoldable pub compensate : RestoreJournal → Code → (stopped : Bool) → M (Unit {0})
unfolding compensate_unknown compensate_known
compensate j code stopped = compensate_by j.core_restore_transaction_id j code stopped

abbrev pub is_manifest : RestoreJournal → BeginRestoreResult → Bool
is_manifest j r =
    (r.relative_path == j.core_relative_path)
    && (r.sha256 == j.core_sha256)
    && (r.size_bytes == j.core_size_bytes)
    && (r.schema_version == j.core_schema_version)

-- The begin of a journal without a transaction; two tests that raise the same are one here.
unfoldable pub begin_now : BeginRestoreResult → RestoreJournal → M RestoreJournal
unfolding write_journal begin compensate
begin_now answer j = write_journal (with_state begin_pending j) >> begin answer >>= λ r.
    let updated = with_transaction applied_pending_commit r.restore_transaction_id j in
    write_journal updated
    >> (if is_manifest j r then pure tt else compensate updated manifest_mismatch true)
    >> pure updated

abbrev pub begin_by : Option ℕ → BeginRestoreResult → RestoreJournal → M RestoreJournal
begin_by none answer j = begin_now answer j
begin_by (some k) answer j = pure j

-- `_begin_if_needed`
unfoldable pub begin_if_needed : BeginRestoreResult → RestoreJournal → M RestoreJournal
unfolding begin_now
begin_if_needed answer j = begin_by j.core_restore_transaction_id answer j

abbrev pub set_journal : RestoreJournal → M (Unit {0})
set_journal j = modify (λ s. record s { journal = j })

abbrev pub set_stopped : Bool → M (Unit {0})
set_stopped b = modify (λ s. record s { stopped = b })

-- `journal = journal.with_state(state); self._write_journal(journal)`
abbrev pub advance : JournalState → M (Unit {0})
advance state s =
    (set_journal (with_state state s.journal) >> write_journal (with_state state s.journal)) s

abbrev pub result_of : JournalState → RestoreJournal → CoordinatedRestoreResult
result_of state j = record {
  restore_id = j.restore_id;
  state = state;
  core_restore_transaction_id = j.core_restore_transaction_id;
}

abbrev pub remember : CoordinatedRestoreResult → M (Unit {0})
remember r = modify (λ s. record s { completed_results = r ∷ s.completed_results })

-- `journal = self._begin_if_needed(journal)`
abbrev pub begin_step : BeginRestoreResult → M (Unit {0})
begin_step answer = (λ s. begin_if_needed answer s.journal s) >>= set_journal

-- The `try` of `apply_restore`: up to the new rounds, up to the commit, and after it.
unfoldable pub apply_rounds : BeginRestoreResult → M (Unit {0})
unfolding stop_core begin_if_needed replace_rounds_database write_journal
apply_rounds answer =
    stop_core
    >> modify (λ s. record s { stopped = true; began = true })
    >> begin_step answer
    >> replace_rounds_database
    >> advance rounds_applied_pending_commit

unfoldable pub apply_up_to_commit : BeginRestoreResult → M CommitRestoreResult
unfolding apply_rounds start_core require_healthy verify_core_manifest commit
apply_up_to_commit answer =
    apply_rounds answer
    >> set_stopped false
    >> start_core
    >> require_healthy
    >> (λ s. verify_core_manifest s.journal s)
    >> advance healthy_pending_commit
    >> (λ s. commit s.journal s)

-- The result of a commit: the journal's id, and the state and the transaction that the Core answered.
abbrev pub committed_result : CommitRestoreResult → RestoreJournal → CoordinatedRestoreResult
committed_result commit j = record {
  restore_id = j.restore_id;
  state = commit.state;
  core_restore_transaction_id = some commit.restore_transaction_id;
}

unfoldable pub conclude : CommitRestoreResult → M CoordinatedRestoreResult
unfolding write_journal cleanup
conclude commit =
    advance committed
    >> (λ s. remember (committed_result commit s.journal) s)
    >> (λ s. (cleanup >> pure (committed_result commit s.journal)) s)

-- The handlers of `apply_restore`.
abbrev pub code_of : Fault → Code
code_of (restore_error code i c) = code
code_of other_error = apply_failed

abbrev pub is_settled : Fault → Bool
is_settled (restore_error code i c) = i || c
is_settled other_error = false

unfoldable pub before_begin : M (Unit {0})
unfolding safe_start_after_failure cleanup
before_begin s = ((if s.stopped then safe_start_after_failure else pure tt) >> cleanup) s

unfoldable pub after_failure : Fault → M CoordinatedRestoreResult
unfolding compensate before_begin
after_failure e s =
    if is_settled e
    then throw e s
    else ((if s.began then compensate s.journal (code_of e) s.stopped else before_begin)
          >> throw (restore_fault (code_of e)))
        s

abbrev pub knows : Option ℕ → Bool
knows none = false
knows (some k) = true

abbrev pub has_transaction : RestoreJournal → Bool
has_transaction j = knows j.core_restore_transaction_id

-- The saga of `apply_restore` on a journal that is to be applied.
unfoldable pub run_saga : BeginRestoreResult → RestoreJournal → M CoordinatedRestoreResult
unfolding apply_up_to_commit conclude after_failure
run_saga answer j =
    modify (λ s. record s { journal = j; stopped = false; began = has_transaction j })
    >> try_with (apply_up_to_commit answer >>= conclude) after_failure

-- What follows the choice of the journal.
unfoldable pub apply_journal : BeginRestoreResult → RestoreJournal → M CoordinatedRestoreResult
unfolding run_saga
apply_journal answer j = elim j.state [
  | committed ↦ pure (result_of committed j)
  | restore_inconsistent ↦ throw inconsistent
  | _ ↦ run_saga answer j
]

-- `_read_journal`
unfoldable pub read_journal : M RestoreJournal
read_journal = call (restore_fault journal_corrupt) (λ s. s) >> λ s. elim s.journal_file [
  | none ↦ throw (restore_fault journal_corrupt) s
  | some j ↦ pure j s
]

-- The argument of `apply_restore`: none, what `prepare_restore` gave, a journal, or an id.
pub data Prepared : Type 0 where
  from_file : Prepared
  from_preparation from_journal : RestoreJournal → Prepared
  from_id : ℕ → Prepared

abbrev pub unless_completed :
    BeginRestoreResult
    → RestoreJournal
    → Option CoordinatedRestoreResult
    → M CoordinatedRestoreResult
unless_completed answer j (some r) = pure r
unless_completed answer j none = apply_journal answer j

unfoldable pub apply_restore : BeginRestoreResult → Prepared → M CoordinatedRestoreResult
unfolding apply_journal read_journal
apply_restore answer from_file = read_journal >>= apply_journal answer
apply_restore answer (from_preparation j) = λ s.
    unless_completed answer j
      (find (λ (r : CoordinatedRestoreResult). r.restore_id == j.restore_id) s.completed_results) s
apply_restore answer (from_journal j) = apply_journal answer j
apply_restore answer (from_id k) = read_journal >>= λ j.
    if j.restore_id == k then apply_journal answer j else throw (restore_fault id_mismatch)

-- The `try` of `recover`.
unfoldable pub roll_back : BeginRestoreResult → M CoordinatedRestoreResult
unfolding stop_core begin_if_needed rollback_core restore_rounds_database verify_sqlite start_core
    require_healthy write_journal cleanup
roll_back answer = stop_core >> (λ s. begin_if_needed answer s.journal s) >>= λ j.
    set_journal j
    >> rollback_core j
    >> restore_rounds_database
    >> verify_sqlite
    >> start_core
    >> require_healthy
    >> advance rolled_back
    >> cleanup
    >> pure (result_of rolled_back (with_state rolled_back j))

unfoldable pub recover_journal : BeginRestoreResult → RestoreJournal → M CoordinatedRestoreResult
unfolding roll_back mark_inconsistent
recover_journal answer j =
    set_journal j
    >> try_with (roll_back answer) (λ e s. (mark_inconsistent s.journal >> throw inconsistent) s)

unfoldable pub recover_from : BeginRestoreResult → RestoreJournal → M CoordinatedRestoreResult
unfolding recover_journal cleanup
recover_from answer j = elim j.state [
  | restore_inconsistent ↦ throw inconsistent
  | committed ↦ cleanup >> pure (result_of committed j)
  | prepared ↦
      if has_transaction j
      then recover_journal answer j
      else cleanup >> pure (result_of rolled_back j)
  | _ ↦ recover_journal answer j
]

-- `recover`; a journal that cannot be read is an error.
unfoldable pub recover : BeginRestoreResult → M (Option CoordinatedRestoreResult)
unfolding recover_from
recover answer s = elim s.journal_file [
  | none ↦ pure none s
  | some j ↦
      (call (restore_fault journal_corrupt) (λ t. t) >> recover_from answer j >>= λ r.
      pure (some r))
        s
]

-- `prepare_restore`: what the Core's service answers, what its snapshot of the rounds holds, a new id.
abbrev new_journal : ℕ → BeginRestoreResult → RestoreJournal
new_journal k p = record {
  restore_id = k;
  state = prepared;
  backup_id = p.sha256;
  core_restore_transaction_id = none;
  core_relative_path = p.relative_path;
  core_sha256 = p.sha256;
  core_size_bytes = p.size_bytes;
  core_schema_version = p.schema_version;
}

unfoldable pub prepare_now : ℕ → BeginRestoreResult → ℕ → M RestoreJournal
unfolding write_journal
prepare_now k p content =
    try_with
      (call other_error (λ s. record s { snapshot_file = some content })
        >> (λ s. call other_error (λ t. record t { rollback_file = some s.rounds }) s)
        >> write_journal (new_journal k p)
        >> pure (new_journal k p))
      (λ e.
        call other_error (λ s. record s { rollback_file = none })
        >> modify (λ s. record s { snapshot_file = none })
        >> throw (restore_fault prepare_failed))

unfoldable pub prepare_restore : ℕ → BeginRestoreResult → ℕ → M RestoreJournal
unfolding prepare_now
prepare_restore k p content s = elim s.journal_file [
  | none ↦ prepare_now k p content s
  | some j ↦
      (call (restore_fault journal_corrupt) (λ t. t)
          >> elim j.state [ restore_inconsistent ↦ throw inconsistent | _ ↦ pure j ])
        s
]
