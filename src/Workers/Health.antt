-- ===== src/Workers/Health.antt =====
-- scheduler/worker_state.py: what the published state says of a worker's health.
use ledgermind_local.Prelude.{
  ℕ, ◌≤◌, ◌<◌, ◌≡◌, Bool, true, false, Option, none, some, List, [], ◌∷◌, String, arith, ◌==◌,
  if◌then◌else◌,
}
use ledgermind_local.Workers.{
  WorkerState, WorkerStateSnapshot, Item, new_state, mark_started, set_current_item, mark_progress,
  mark_degraded, mark_stopping, mark_shutdown_timed_out, publish_result, mark_success, mark_error,
  mark_stopped,
}

pub data Mark : Type 0 where
  started : ℕ → Option String → Mark
  current_item : Option String → Mark
  progress : ℕ → Mark
  degraded : Bool → Mark
  stopping : Mark
  shutdown_timed_out : Mark
  result :
      (success_at progress_at : ℕ)
      → Option Item
      → Option String
      → (processed is_degraded : Bool) → Mark
  success : (success_at progress_at : ℕ) → Option String → Bool → Mark
  error : ℕ → String → Option String → Option ℕ → Mark
  stopped : Mark

abbrev or_same : WorkerState → Option WorkerState → WorkerState
or_same s none = s
or_same s (some t) = t

-- One call; a call that raises changes nothing.
unfoldable pub mark : Mark → WorkerState → WorkerState
mark (started now item) s = mark_started now item s
mark (current_item item) s = set_current_item item s
mark (progress now) s = mark_progress now s
mark (degraded d) s = mark_degraded d s
mark stopping s = mark_stopping s
mark shutdown_timed_out s = mark_shutdown_timed_out s
mark (result a b item id processed d) s = publish_result a b item id processed d s
mark (success a b id processed) s = mark_success a b id processed s
mark (error now code id count) s = or_same s (mark_error now code id count s)
mark stopped s = mark_stopped s

unfoldable pub mark_all : List Mark → WorkerState → WorkerState
mark_all [] s = s
mark_all (m ∷ ms) s = mark_all ms (mark m s)

abbrev has_error : Option String → Bool
has_error none = false
has_error (some code) = true

-- A degraded worker and one whose last pass failed are never reported healthy; failures in a row are
-- failures; there is an error code exactly when something has failed.
pub record IsHonest (v : WorkerStateSnapshot) : Type 0 where
  pub degraded_unhealthy : v.degraded ≡ true → v.healthy ≡ false
  pub failing_unhealthy : 0 < v.consecutive_failures → v.healthy ≡ false
  pub failures_counted : v.consecutive_failures ≤ v.failed_count
  pub error_known : (v.failed_count == 0) ≡ (if has_error v.last_error_code then false else true)

new_state-IsHonest :
    (name : String) (s : WorkerState) → new_state name ≡ some s → IsHonest s.snapshot
unfolding new_state
new_state-IsHonest name s e = ground arith

mark-IsHonest : (m : Mark) (s : WorkerState) → IsHonest s.snapshot → IsHonest (mark m s).snapshot
unfolding mark mark_started set_current_item mark_progress mark_degraded mark_stopping
    mark_shutdown_timed_out publish_result mark_success mark_error mark_stopped
mark-IsHonest (started now item) s h = ground arith
mark-IsHonest _ s h = ground arith

mark_all-IsHonest :
    (ms : List Mark) (s : WorkerState) → IsHonest s.snapshot → IsHonest (mark_all ms s).snapshot
unfolding mark_all
mark_all-IsHonest [] s h = h
mark_all-IsHonest (m ∷ ms) s h = mark_all-IsHonest ms (mark m s) (mark-IsHonest m s h)

-- From a new state, any calls of the methods, also those that raise, keep the published state honest.
pub marked-IsHonest :
    (name : String) (s : WorkerState) (ms : List Mark)
    → new_state name ≡ some s
    → IsHonest (mark_all ms s).snapshot
marked-IsHonest name s ms e = mark_all-IsHonest ms s (new_state-IsHonest name s e)
