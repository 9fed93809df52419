-- ===== src/Workers.antt =====
-- scheduler/worker_state.py: the runtime state that a background worker publishes. Each method takes
-- the clock's readings that it makes; the lock makes each method one step.
pub mod Health
pub mod Loop
pub mod Backoff
use ledgermind_local.Prelude.{
  ℕ, ◌+◌, Bool, true, false, not, Option, none, some, String, ltb, if◌then◌else◌,
}
use ledgermind_local.Prelude.Text.{is_blank}

pub record WorkerStateSnapshot : Type 0 where
  pub name : String
  pub running : Bool
  pub healthy : Bool
  pub last_started_at : Option ℕ
  pub last_success_at : Option ℕ
  pub last_error_at : Option ℕ
  pub last_error_code : Option String
  pub consecutive_failures : ℕ
  pub processed_count : ℕ
  pub failed_count : ℕ
  pub current_item_id : Option String
  pub stopping : Bool
  pub shutdown_timed_out : Bool
  pub last_progress_at : Option ℕ
  pub last_iteration_failure_count : ℕ
  pub degraded : Bool

-- The parts of a pass's result that the loop looks at.
pub record Item : Type 0 where
  pub command_id : Option String
  pub item_id : Option String
  pub degraded : Bool

pub record WorkerOutcome : Type 0 where
  pub result : Option Item
  pub snapshot : WorkerStateSnapshot

pub record WorkerState : Type 0 where
  pub snapshot : WorkerStateSnapshot
  pub last_outcome : Option WorkerOutcome

-- `__init__`; a blank name is a ValueError.
unfoldable pub new_state : String → Option WorkerState
new_state name =
    if is_blank name
    then none
    else some (record {
      snapshot = record {
        name = name;
        running = false;
        healthy = true;
        last_started_at = none;
        last_success_at = none;
        last_error_at = none;
        last_error_code = none;
        consecutive_failures = 0;
        processed_count = 0;
        failed_count = 0;
        current_item_id = none;
        stopping = false;
        shutdown_timed_out = false;
        last_progress_at = none;
        last_iteration_failure_count = 0;
        degraded = false;
      };
      last_outcome = none;
    })

unfoldable pub mark_started : (now : ℕ) → Option String → WorkerState → WorkerState
mark_started now item_id s = record s {
  snapshot = record s.snapshot {
    running = true;
    stopping = false;
    shutdown_timed_out = false;
    last_started_at = some now;
    current_item_id = item_id;
  };
}

unfoldable pub set_current_item : Option String → WorkerState → WorkerState
set_current_item item_id s = record s { snapshot = record s.snapshot { current_item_id = item_id } }

unfoldable pub mark_progress : (now : ℕ) → WorkerState → WorkerState
mark_progress now s = record s { snapshot = record s.snapshot { last_progress_at = some now } }

unfoldable pub mark_degraded : Bool → WorkerState → WorkerState
mark_degraded degraded s = record s {
  snapshot = record s.snapshot {
    degraded = degraded;
    healthy = if degraded then false else s.snapshot.healthy;
  };
}

unfoldable pub mark_stopping : WorkerState → WorkerState
mark_stopping s = record s { snapshot = record s.snapshot { stopping = true } }

unfoldable pub mark_shutdown_timed_out : WorkerState → WorkerState
mark_shutdown_timed_out s = record s {
  snapshot = record s.snapshot {
    stopping = true;
    shutdown_timed_out = true;
    healthy = false;
    degraded = true;
  };
}

unfoldable pub success_snapshot :
    (success_at progress_at : ℕ)
    → Option String
    → (processed degraded : Bool) → WorkerStateSnapshot
    → WorkerStateSnapshot
success_snapshot success_at progress_at item_id processed degraded v = record v {
  running = true;
  healthy = not degraded;
  degraded = degraded;
  last_success_at = some success_at;
  consecutive_failures = 0;
  last_iteration_failure_count = 0;
  last_progress_at = some progress_at;
  processed_count = v.processed_count + (if processed then 1 else 0);
  current_item_id = item_id;
}

unfoldable pub publish_result :
    (success_at progress_at : ℕ)
    → Option Item
    → Option String
    → (processed degraded : Bool) → WorkerState
    → WorkerState
unfolding success_snapshot
publish_result success_at progress_at result item_id processed degraded s =
    let v = success_snapshot success_at progress_at item_id processed degraded s.snapshot in
    record { snapshot = v; last_outcome = some (record { result = result; snapshot = v }) }

unfoldable pub mark_success :
    (success_at progress_at : ℕ) → Option String → (processed : Bool) → WorkerState → WorkerState
unfolding success_snapshot
mark_success success_at progress_at item_id processed s = record s {
  snapshot = success_snapshot success_at progress_at item_id processed false s.snapshot;
}

abbrev pub failure_count_or : Option ℕ → ℕ → ℕ
failure_count_or none consecutive = consecutive
failure_count_or (some n) consecutive = n

abbrev is_bad_count : Option ℕ → Bool
is_bad_count none = false
is_bad_count (some n) = ltb n 1

unfoldable pub error_snapshot :
    (now : ℕ) → String → Option String → Option ℕ → WorkerStateSnapshot → WorkerStateSnapshot
error_snapshot now code item_id count v = record v {
  running = true;
  healthy = false;
  degraded = true;
  last_error_at = some now;
  last_error_code = some code;
  consecutive_failures = v.consecutive_failures + 1;
  last_iteration_failure_count = failure_count_or count (v.consecutive_failures + 1);
  failed_count = v.failed_count + 1;
  current_item_id = item_id;
}

-- `none` is the ValueError of a blank code or of a count below 1.
unfoldable pub mark_error :
    (now : ℕ) → String → Option String → Option ℕ → WorkerState → Option WorkerState
unfolding error_snapshot
mark_error now code item_id count s =
    if is_blank code
    then none
    else if is_bad_count count
    then none
    else some (record s { snapshot = error_snapshot now code item_id count s.snapshot })

unfoldable pub mark_stopped : WorkerState → WorkerState
mark_stopped s = record s {
  snapshot = record s.snapshot { running = false; stopping = false; current_item_id = none };
}
