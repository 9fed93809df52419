-- ===== src/Tests/Loops.antt =====
-- The worker loop and its published state.
use ledgermind_local.Prelude.{◌≡◌, refl, true, false, none, some, [], ◌∷◌, List}
use ledgermind_local.Prelude.Text.{is_blank, is_space}
use ledgermind_local.Workers.{WorkerState, new_state}
use ledgermind_local.Workers.Health.{
  Mark, error, result, stopped, started, IsHonest, mark_all, marked-IsHonest,
}
use ledgermind_local.Workers.Loop.{Settings, Turn, raised, returned}

abbrev fresh : WorkerState
fresh = record {
  snapshot = record {
    name = "core";
    running = false;
    healthy = true;
    last_started_at = none;
    last_success_at = none;
    last_error_at = none;
    last_error_code = none;
    consecutive_failures = 0;
    processed_count = 0;
    failed_count = 0;
    current_item_id = none;
    stopping = false;
    shutdown_timed_out = false;
    last_progress_at = none;
    last_iteration_failure_count = 0;
    degraded = false;
  };
  last_outcome = none;
}

fresh_made : new_state "core" ≡ some fresh
unfolding new_state is_blank is_space
fresh_made = refl

abbrev marks : List Mark
marks =
    started 1 none ∷ error 2 "ValueError" none none ∷ result 3 4 none none false true ∷ stopped ∷ []

marked-IsHonest_example : IsHonest (mark_all marks fresh).snapshot
marked-IsHonest_example = marked-IsHonest "core" fresh marks fresh_made

abbrev settings : Settings
settings = record { poll_interval = 1000; initial_backoff = 500; max_backoff = 3000 }

abbrev failing_turn : Turn
failing_turn = record {
  pass = raised "OSError";
  started_at = 1;
  done_at = 2;
  progress_at = 2;
  observe = λ r s. s;
  stop_seen = false;
}

abbrev idle_turn : Turn
idle_turn = record failing_turn { pass = returned none }
