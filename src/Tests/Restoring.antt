-- ===== src/Tests/Restoring.antt =====
-- Runs of maintenance/coordinated_restore.py on concrete states.
use ledgermind_local.Prelude.{true, false, none, some, List, [], ◌∷◌, ◌≡◌, refl, inr}
use ledgermind_local.Restore.{
  RestoreJournal, BeginRestoreResult, CoordinatedRestoreResult, Session, Fate, succeeds, dies_after,
  prepared, rounds_applied_pending_commit, committed, rolled_back, returned, raised, call,
  restore_error, commit_call, begin_call, rollback_call, commit_failed, fails_before,
  inconsistent_code,
}
use ledgermind_local.Restore.Rules.{durable}
use ledgermind_local.Restore.Steps.{
  write_journal, stop_core, start_core, require_healthy, verify_sqlite, copy_rounds,
  replace_rounds_database, restore_rounds_database, commit, rollback_core, begin, mark_inconsistent,
  cleanup, verify_core_manifest, safe_start_after_failure,
}
use ledgermind_local.Restore.Saga.{
  attempt, compensate_known, compensate_unknown, compensate, begin_now, begin_if_needed,
  apply_rounds, apply_up_to_commit, conclude, after_failure, before_begin, run_saga, recover,
  recover_from, recover_journal, roll_back,
}
use ledgermind_local.Restore.Safe.{Safe}
use ledgermind_local.Restore.Ended.{Committed}
use ledgermind_local.Restore.Succeeded.{first_start, Succeeded, run_saga-returned}
use ledgermind_local.Restore.Recovered.{
  Applicable, left_behind, Recovered, run_saga-Safe, run_saga-Committed, recover_lem,
}

abbrev fresh : RestoreJournal
fresh = record {
  restore_id = 1;
  state = prepared;
  backup_id = 7;
  core_restore_transaction_id = none;
  core_relative_path = 5;
  core_sha256 = 7;
  core_size_bytes = 100;
  core_schema_version = 3;
}

abbrev answer : BeginRestoreResult
answer = record {
  restore_transaction_id = 9;
  relative_path = 5;
  sha256 = 7;
  size_bytes = 100;
  schema_version = 3;
}

abbrev before : List Fate → Session
before fates = record {
  fates = fates;
  rounds = 10;
  rollback_file = some 10;
  snapshot_file = some 20;
  journal_file = some fresh;
  core_running = true;
  core_calls = [];
  commit_answer = record { restore_transaction_id = 8; is_committed = true; state = committed };
  completed_results = [];
  journal = fresh;
  stopped = false;
  began = false;
}

fresh-Applicable : (fates : List Fate) → Applicable 10 fresh (before fates)
unfolding Applicable
fresh-Applicable fates = inr (refl, refl)

-- The commit's call is the thirteenth.
abbrev lost_commit : List Fate
lost_commit =
    succeeds ∷ succeeds ∷ succeeds ∷ succeeds ∷ succeeds ∷ succeeds ∷ succeeds ∷ succeeds ∷ succeeds
    ∷ succeeds ∷ succeeds ∷ succeeds ∷ dies_after ∷ []

applied : (run_saga answer fresh (before [])).1.rounds ≡ 20
unfolding run_saga apply_up_to_commit apply_rounds conclude after_failure begin_if_needed begin_now
    begin compensate compensate_known compensate_unknown attempt stop_core start_core
    require_healthy verify_sqlite copy_rounds replace_rounds_database restore_rounds_database commit
    rollback_core mark_inconsistent cleanup verify_core_manifest write_journal before_begin
    safe_start_after_failure call
applied = refl

run_saga-Safe_example : Safe 10 20 (durable (run_saga answer fresh (before lost_commit)).1)
run_saga-Safe_example =
    run_saga-Safe 10 20 answer fresh (before lost_commit) refl refl (fresh-Applicable lost_commit)

abbrev done : CoordinatedRestoreResult
done = record { restore_id = 1; state = committed; core_restore_transaction_id = some 8 }

fresh-returned : (run_saga answer fresh (before [])).0 ≡ returned done
unfolding run_saga apply_up_to_commit apply_rounds conclude after_failure begin_if_needed begin_now
    begin compensate compensate_known compensate_unknown attempt stop_core start_core
    require_healthy verify_sqlite copy_rounds replace_rounds_database restore_rounds_database commit
    rollback_core mark_inconsistent cleanup verify_core_manifest write_journal before_begin
    safe_start_after_failure call
fresh-returned = refl

run_saga-Committed_example : Committed 10 20 done (run_saga answer fresh (before [])).1
run_saga-Committed_example =
    run_saga-Committed 10 20 answer fresh (before []) done refl refl (fresh-Applicable [])
      fresh-returned

recover_example :
    Recovered 1 9 10
      (recover answer (left_behind rounds_applied_pending_commit 9 fresh 10 (before [])))
recover_example = recover_lem answer rounds_applied_pending_commit 9 fresh 10 (before []) refl

-- A commit that is answered in another state is undone.
refused_commit :
    (run_saga answer fresh (record (before []) {
      commit_answer = record {
        restore_transaction_id = 9;
        is_committed = true;
        state = rolled_back;
      };
    })).0
    ≡ raised (restore_error commit_failed false true)
unfolding run_saga apply_up_to_commit apply_rounds conclude after_failure begin_if_needed begin_now
    begin compensate compensate_known compensate_unknown attempt stop_core start_core
    require_healthy verify_sqlite copy_rounds replace_rounds_database restore_rounds_database commit
    rollback_core mark_inconsistent cleanup verify_core_manifest write_journal before_begin
    safe_start_after_failure call
refused_commit = refl

-- A committed restore whose clean-up fails once is rolled back.
abbrev late_failure : List Fate
late_failure =
    succeeds ∷ succeeds ∷ succeeds ∷ succeeds ∷ succeeds ∷ succeeds ∷ succeeds ∷ succeeds ∷ succeeds
    ∷ succeeds ∷ succeeds ∷ succeeds ∷ succeeds ∷ succeeds ∷ fails_before ∷ []

undone :
    (run_saga answer fresh (before late_failure)).1.core_calls
    ≡ rollback_call ∷ commit_call ∷ begin_call ∷ []
unfolding run_saga apply_up_to_commit apply_rounds conclude after_failure begin_if_needed begin_now
    begin compensate compensate_known compensate_unknown attempt stop_core start_core
    require_healthy verify_sqlite copy_rounds replace_rounds_database restore_rounds_database commit
    rollback_core mark_inconsistent cleanup verify_core_manifest write_journal before_begin
    safe_start_after_failure call
undone = refl

-- A rolled-back restore whose rollback file is gone is not recovered.
unrecovered :
    (recover answer (record (before []) {
      rollback_file = none;
      journal_file =
          some (record fresh { state = rolled_back; core_restore_transaction_id = some 9 });
    })).0
    ≡ raised (restore_error inconsistent_code true false)
unfolding recover recover_from recover_journal roll_back begin_if_needed begin_now begin compensate
    compensate_known compensate_unknown attempt stop_core start_core require_healthy verify_sqlite
    copy_rounds restore_rounds_database rollback_core mark_inconsistent cleanup write_journal call
unrecovered = refl

run_saga-returned_example :
    Succeeded fresh 20 8 (before []) (run_saga answer fresh (first_start fresh 10 20 8 (before [])))
run_saga-returned_example = run_saga-returned 10 20 8 answer fresh (before []) refl refl
