-- ===== src/Restore/Succeeded.antt =====
-- A restore of maintenance/coordinated_restore.py in a process in which nothing fails.
use ledgermind_local.Prelude.{
  ℕ, true, false, ◌&&◌, none, some, [], ◌∷◌, ◌≡◌, refl, sym, subst, ltb, ◌==◌,
}
use ledgermind_local.Restore.{
  RestoreJournal, BeginRestoreResult, CoordinatedRestoreResult, Session, Outcome, returned,
  committed, commit_call, begin_call, call,
}
use ledgermind_local.Restore.Steps.{
  begin, stop_core, start_core, require_healthy, verify_sqlite, copy_rounds,
  replace_rounds_database, commit, cleanup, verify_core_manifest, write_journal,
}
use ledgermind_local.Restore.Saga.{
  is_manifest, run_saga, apply_up_to_commit, apply_rounds, conclude, after_failure, begin_if_needed,
  begin_now,
}

-- A restore that is applied for the first time, in a process in which nothing fails and with a Core that
-- answers the commit with transaction `k`.
abbrev pub first_start : RestoreJournal → (original target k : ℕ) → Session → Session
first_start j original target k s = record s {
  fates = [];
  rounds = original;
  rollback_file = some original;
  snapshot_file = some target;
  journal_file = some (record j { core_restore_transaction_id = none });
  commit_answer = record { restore_transaction_id = k; is_committed = true; state = committed };
}

abbrev pub restored : RestoreJournal → ℕ → CoordinatedRestoreResult
restored j k = record {
  restore_id = j.restore_id;
  state = committed;
  core_restore_transaction_id = some k;
}

-- The result, what the disk and the Core hold in the end, and the service's cache.
abbrev pub Succeeded :
    RestoreJournal → (target k : ℕ) → Session → Outcome CoordinatedRestoreResult × Session → Type 0
Succeeded j target k s x =
    (x.0 ≡ returned (restored j k))
    × (x.1.rounds ≡ target)
    × (x.1.rollback_file ≡ none)
    × (x.1.snapshot_file ≡ none)
    × (x.1.journal_file ≡ none)
    × (x.1.core_running ≡ true)
    × (x.1.core_calls ≡ commit_call ∷ begin_call ∷ s.core_calls)
    × (x.1.completed_results ≡ restored j k ∷ s.completed_results)

-- The session in the end.
abbrev final : RestoreJournal → (original target k : ℕ) → BeginRestoreResult → Session → Session
final j original target k answer s = record (first_start j original target k s) {
  rounds = target;
  rollback_file = none;
  snapshot_file = none;
  journal_file = none;
  core_running = true;
  core_calls = commit_call ∷ begin_call ∷ s.core_calls;
  completed_results = restored j k ∷ s.completed_results;
  journal = record j {
    state = committed;
    core_restore_transaction_id = some answer.restore_transaction_id;
  };
  stopped = false;
  began = true;
}

run_saga-first :
    (original target k : ℕ) (answer : BeginRestoreResult) (j : RestoreJournal) (s : Session)
    → is_manifest j answer ≡ true
    → ((j.backup_id == j.core_sha256) && ltb 0 j.core_schema_version) ≡ true
    → run_saga answer
        (record j { core_restore_transaction_id = none })
        (first_start j original target k s)
      ≡ (returned (restored j k), final j original target k answer s)
unfolding run_saga apply_up_to_commit apply_rounds conclude after_failure begin_if_needed begin_now
    begin stop_core start_core require_healthy verify_sqlite copy_rounds replace_rounds_database
    commit cleanup verify_core_manifest write_journal call
run_saga-first original target k answer j s m v = rw (m, v) refl

-- On a journal without a transaction, over the rounds from before and with both files there, a restore in
-- which no call fails returns the result committed with the transaction that the Core answered to the
-- commit, if the Core's begin answers with the journal's manifest and the journal's own metadata is valid.
-- The new rounds are then in the database, both files and the journal are gone, the Core runs, it was sent
-- a begin and then a commit, and the service remembers the result.
pub run_saga-returned :
    (original target k : ℕ) (answer : BeginRestoreResult) (j : RestoreJournal) (s : Session)
    → is_manifest j answer ≡ true
    → ((j.backup_id == j.core_sha256) && ltb 0 j.core_schema_version) ≡ true
    → Succeeded j target k s (
        run_saga answer
          (record j { core_restore_transaction_id = none })
          (first_start j original target k s))
run_saga-returned original target k answer j s m v =
    subst (Succeeded j target k s) (sym (run_saga-first original target k answer j s m v))
      (refl, refl, refl, refl, refl, refl, refl, refl)
